-- ===== src/Queries/Rollback.antt =====
-- What the mutations of a memo do to the cache, when they succeed and when they fail.
use kube_memos_eks.Queries.{
  QueryKey, QueryClient, CacheData, key_eq, part_eq, memo_detail, is_prefix, memo_lists, memo_list,
  user_stats,
}
use kube_memos_eks.Queries.Memos.{
  UpdateVariables, show_update, on_mutate_update, on_error_update, on_success_update,
  use_update_memo,
}
use kube_memos_eks.Queries.Mutations.{mutate, settled}
use kube_memos_eks.MemoEditor.Service.{Memo, MemoPatch}
use kube_memos_eks.Base.{
  if◌then◌else◌, Bool-cases, str_eq_refl, truthy, is_some, Action, ok, err, String, ◌≡◌, refl, ap,
  ◌∙◌, inl, inr, Bool, true, false, ◌&&◌, ◌||◌, Option, none, some,
}

pub key_eq-memo_detail : (a : String) → key_eq (memo_detail a) (memo_detail a) ≡ true
unfolding key_eq part_eq
key_eq-memo_detail a = rw (str_eq_refl a) refl

module _ {Cache : Type 0} (q : QueryClient Cache) where
  open q use {
    get_query_data, is_invalidated, set_query_data, invalidate_queries, remove_queries,
    cancel_queries, get-set, get-invalidate, get-remove, get-cancel, invalidated-set,
    invalidated-invalidate,
  }

  pub get-set_same :
      (name : String) (v : CacheData) (c : Cache)
      → get_query_data (memo_detail name) (set_query_data (memo_detail name) v c) ≡ some v
  get-set_same name v c =
      get-set (memo_detail name) (memo_detail name) v c
      ∙ ap (λ b. if b then some v else get_query_data (memo_detail name) c)
          (key_eq-memo_detail name)

  -- The snapshot is the memo's entry before the mutation.
  pub snapshot_lem :
      (v : UpdateVariables) (name : String) (c : Cache)
      → v.update.name ≡ some name
      → truthy name ≡ true
      → (on_mutate_update q v c).0 ≡ get_query_data (memo_detail name) c
  unfolding on_mutate_update show_update
  snapshot_lem v name c n t =
      rw (n, t)
        (kept _ (get_query_data (memo_detail name) (cancel_queries (memo_detail name) c))
          (cancel_queries (memo_detail name) c))
      ∙ get-cancel (memo_detail name) (memo_detail name) c
    where
      kept : (u : MemoPatch) (o : Option CacheData) (c : Cache) → (show_update q name u o c).0 ≡ o
      kept u none c = refl
      kept u (some previous) c = refl

  pub on_error_update_restores :
      (v : UpdateVariables) (name : String) (o : Option CacheData) (c : Cache) (k : QueryKey)
      → v.update.name ≡ some name
      → truthy name ≡ true
      → get_query_data k (on_error_update q v o c)
        ≡ (if key_eq (memo_detail name) k && is_some o then o else get_query_data k c)
  unfolding on_error_update
  on_error_update_restores v name none c k n t = elim (Bool-cases (key_eq (memo_detail name) k)) [
    | inl e ↦ rw e refl
    | inr e ↦ rw e refl
  ]
  on_error_update_restores v name (some previous) c k n t =
      rw (n, t) (get-set k (memo_detail name) previous c ∙ guard (key_eq (memo_detail name) k))
    where
      guard :
          (b : Bool)
          → (if b then some previous else get_query_data k c)
            ≡ (if b && true then some previous else get_query_data k c)
      guard true = refl
      guard false = refl

  -- A list that is cached is invalidated, whatever memo was set before.
  lists_invalidated :
      (filters name : String) (v : CacheData) (c : Cache)
      → is_invalidated (memo_list filters) (
          invalidate_queries user_stats
            (invalidate_queries memo_lists (set_query_data (memo_detail name) v c)))
        ≡ (is_some (get_query_data (memo_list filters) c) || is_invalidated (memo_list filters) c)
  unfolding is_prefix key_eq part_eq
  lists_invalidated filters name v c =
      invalidated-invalidate (memo_list filters) user_stats _
      ∙ invalidated-invalidate (memo_list filters) memo_lists _
      ∙ ap
          (λ o.
            is_some o || is_invalidated (memo_list filters) (set_query_data (memo_detail name) v c))
          (get-set (memo_list filters) (memo_detail name) v c)
      ∙ ap (λ b. is_some (get_query_data (memo_list filters) c) || b)
          (invalidated-set (memo_list filters) (memo_detail name) v c)

  module _ {E : Type 0} where
    -- When the server refuses an update of a memo, the mutation fails with its error; the memo's
    -- entry is again the one before the mutation if it was cached, and every other entry is what it
    -- was when the call ended.
    pub update_memo_rolls_back :
        (update_memo : UpdateVariables → Action Cache E Memo) (v : UpdateVariables) (name : String)
        (c c' : Cache) (e : E) (k : QueryKey)
        → v.update.name ≡ some name
        → truthy name ≡ true
        → update_memo v (on_mutate_update q v c).1 ≡ (err e, c')
        → ((mutate (use_update_memo q update_memo) v c).0 ≡ err e)
          × (get_query_data k (mutate (use_update_memo q update_memo) v c).1 ≡ (
              if key_eq (memo_detail name) k && is_some (get_query_data (memo_detail name) c)
              then get_query_data (memo_detail name) c
              else get_query_data k c'))
    update_memo_rolls_back update_memo v name c c' e k n t h =
        let o = (on_mutate_update q v c).0 in
        let run = ap (settled (use_update_memo q update_memo) v o) h in
        (
          ap (λ r. r.0) run,
          ap (λ r. get_query_data k r.1) run
              ∙ on_error_update_restores v name o c' k n t
              ∙ ap
                  (λ p. if key_eq (memo_detail name) k && is_some p then p else get_query_data k c')
                  (snapshot_lem v name c n t),
        )

    -- When the server takes an update of a memo, the mutation gives the server's memo, and that memo
    -- is what its entry holds; every other entry is what it was when the call ended, and every list
    -- of memos that is cached is marked to be fetched again.
    pub update_memo_commits :
        (update_memo : UpdateVariables → Action Cache E Memo) (v : UpdateVariables) (m : Memo)
        (c c' : Cache) (k : QueryKey) (filters : String)
        → update_memo v (on_mutate_update q v c).1 ≡ (ok m, c')
        → ((mutate (use_update_memo q update_memo) v c).0 ≡ ok m)
          × (get_query_data k (mutate (use_update_memo q update_memo) v c).1 ≡ (
              if key_eq (memo_detail m.name) k
              then some (CacheData.a_memo m)
              else get_query_data k c'))
          × (is_invalidated (memo_list filters) (mutate (use_update_memo q update_memo) v c).1 ≡ (
              is_some (get_query_data (memo_list filters) c')
              || is_invalidated (memo_list filters) c'))
    unfolding on_success_update
    update_memo_commits update_memo v m c c' k filters h =
        let run = ap (settled (use_update_memo q update_memo) v (on_mutate_update q v c).0) h in
        (
          ap (λ r. r.0) run,
          ap (λ r. get_query_data k r.1) run
              ∙ get-invalidate k user_stats _
              ∙ get-invalidate k memo_lists _
              ∙ get-set k (memo_detail m.name) (CacheData.a_memo m) c',
          ap (λ r. is_invalidated (memo_list filters) r.1) run
              ∙ lists_invalidated filters m.name (CacheData.a_memo m) c',
        )
