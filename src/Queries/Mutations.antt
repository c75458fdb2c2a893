-- ===== src/Queries/Mutations.antt =====
-- A mutation of the query library: `onMutate` runs first, the call is awaited, and then `onSuccess`
-- or `onError` runs. What happens to the cache while the call is awaited is what the call does to it.
use kube_memos_eks.Base.{Result, Action, ok, err}

pub record Mutation (Cache E Context Variables Data : Type 0) : Type 0 where
  pub on_mutate : Variables → Cache → Context × Cache
  pub mutation_fn : Variables → Action Cache E Data
  pub on_error : Variables → Context → Cache → Cache
  pub on_success : Data → Cache → Cache

module _ {Cache E Context Variables Data : Type 0} where
  abbrev pub settled :
      Mutation Cache E Context Variables Data
      → Variables
      → Context
      → Result E Data × Cache
      → Result E Data × Cache
  settled m v context (ok d, c) = (ok d, m.on_success d c)
  settled m v context (err e, c) = (err e, m.on_error v context c)

  -- `mutateAsync`
  abbrev pub mutate : Mutation Cache E Context Variables Data → Variables → Action Cache E Data
  mutate m v c = let (context, c') = m.on_mutate v c in settled m v context (m.mutation_fn v c')
