-- ===== src/Queries/Overlap.antt =====
-- What an update of a memo shows while it is awaited, and two updates of one memo that overlap.
use kube_memos_eks.Queries.{QueryClient, CacheData, memo_detail}
use kube_memos_eks.Queries.Memos.{
  UpdateVariables, merge_memo, merge_data, show_update, on_mutate_update, on_error_update,
}
use kube_memos_eks.Queries.Rollback.{
  get-set_same, snapshot_lem, on_error_update_restores, key_eq-memo_detail,
}
use kube_memos_eks.MemoEditor.Service.{Memo, MemoPatch}
use mathlib.Core.Option
use kube_memos_eks.Base.{
  if◌then◌else◌, truthy, truthy_string, nullish, String, ◌≡◌, refl, ap, ◌∙◌, true, Option, none,
  some,
}

-- A memo with the fields that an update names.
abbrev pub with_update : Memo → MemoPatch → Memo
with_update m u = record {
  name = nullish u.name m.name;
  content = nullish u.content m.content;
  visibility = nullish u.visibility m.visibility;
  attachments = nullish u.attachments m.attachments;
  relations = nullish u.relations m.relations;
  location = nullish u.location m.location;
  create_time = elim u.create_time [ none ↦ m.create_time | some t ↦ some t ];
  update_time = elim u.update_time [ none ↦ m.update_time | some t ↦ some t ];
}

module _ {Cache : Type 0} (q : QueryClient Cache) where
  open q use {get_query_data, cancel_queries, get-cancel}

  -- While an update is awaited, the cache shows the memo with the update, if the memo was cached.
  on_mutate_update_shows :
      (v : UpdateVariables) (name : String) (c : Cache)
      → v.update.name ≡ some name
      → truthy name ≡ true
      → get_query_data (memo_detail name) (on_mutate_update q v c).1
        ≡ Option.map (λ p. merge_data p v.update) (get_query_data (memo_detail name) c)
  unfolding on_mutate_update show_update
  on_mutate_update_shows v name c n t =
      ap
        (λ o.
          get_query_data (memo_detail name)
            (if truthy_string o
              then show_update q (nullish o "") v.update
                  (get_query_data (memo_detail (nullish o ""))
                    (cancel_queries (memo_detail (nullish o "")) c))
                  (cancel_queries (memo_detail (nullish o "")) c)
              else (none, c)).1)
        n
      ∙ rw t (
          shown v.update (get_query_data (memo_detail name) (cancel_queries (memo_detail name) c))
            (cancel_queries (memo_detail name) c) refl)
      ∙ ap (Option.map (λ p. merge_data p v.update))
          (get-cancel (memo_detail name) (memo_detail name) c)
    where
      shown :
          (u : MemoPatch) (o : Option CacheData) (c : Cache)
          → get_query_data (memo_detail name) c ≡ o
          → get_query_data (memo_detail name) (show_update q name u o c).1
            ≡ Option.map (λ p. merge_data p u) o
      shown u none c e = e
      shown u (some previous) c e = get-set_same q name (merge_data previous u) c

  -- What a failed update leaves in the entry of its memo, given a snapshot.
  restored :
      (v : UpdateVariables) (name : String) (p : CacheData) (o : Option CacheData) (c : Cache)
      → v.update.name ≡ some name
      → truthy name ≡ true
      → o ≡ some p
      → get_query_data (memo_detail name) (on_error_update q v o c) ≡ some p
  restored v name p o c n t e =
      on_error_update_restores q v name o c (memo_detail name) n t
      ∙ rw (key_eq-memo_detail name, e) refl

  -- Two updates of one cached memo that overlap and are both refused: if the second is taken back
  -- first, the cache holds the memo as it was; if the first is, the cache holds the memo with the
  -- first update, which the server refused: the fields that it names, over those of the memo.
  pub overlapping_rollbacks :
      (v w : UpdateVariables) (name : String) (m : Memo) (c : Cache)
      → v.update.name ≡ some name
      → w.update.name ≡ some name
      → truthy name ≡ true
      → get_query_data (memo_detail name) c ≡ some (CacheData.a_memo m)
      → (get_query_data (memo_detail name) (
            on_error_update q v (on_mutate_update q v c).0 (
              on_error_update q w
                (on_mutate_update q w (on_mutate_update q v c).1).0
                (on_mutate_update q w (on_mutate_update q v c).1).1))
          ≡ some (CacheData.a_memo m))
        × (get_query_data (memo_detail name) (
              on_error_update q w (on_mutate_update q w (on_mutate_update q v c).1).0 (
                on_error_update q v
                  (on_mutate_update q v c).0
                  (on_mutate_update q w (on_mutate_update q v c).1).1))
            ≡ some (CacheData.a_memo (with_update m v.update)))
  unfolding merge_data merge_memo
  overlapping_rollbacks v w name m c n n' t e = (
    restored v name (CacheData.a_memo m) _ _ n t (snapshot_lem q v name c n t ∙ e),
    restored w name (merge_data (CacheData.a_memo m) v.update) _ _ n' t (
        snapshot_lem q w name (on_mutate_update q v c).1 n' t
        ∙ on_mutate_update_shows v name c n t
        ∙ ap (Option.map (λ r. merge_data r v.update)) e),
  )
