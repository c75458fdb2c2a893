-- ===== src/Queries/Tests.antt =====
-- Updates of a cached memo at concrete inputs.
use kube_memos_eks.Errors.{Thrown, a_string}
use kube_memos_eks.MemoEditor.State.{Visibility}
use kube_memos_eks.MemoEditor.Service.{Memo, MemoPatch}
use kube_memos_eks.Queries.{CacheData, key_eq, part_eq, memo_detail, memo_list}
use kube_memos_eks.Queries.Mutations.{mutate}
use kube_memos_eks.Queries.Memos.{
  UpdateVariables, merge_memo, show_update, on_mutate_update, on_error_update, use_update_memo,
}
use kube_memos_eks.Queries.Rollback.{update_memo_rolls_back, update_memo_commits}
use kube_memos_eks.Queries.Overlap.{overlapping_rollbacks}
use kube_memos_eks.Queries.Store.{Store, store}
use kube_memos_eks.Base.{Text, Action, ok, err, ◌≡◌, refl, false, none, some, [], ◌∷◌}

abbrev first_memo : Memo
first_memo = record {
  name = "memos/1";
  content = 65 ∷ [];
  visibility = Visibility.private;
  attachments = [];
  relations = [];
  location = none;
  create_time = none;
  update_time = none;
}

abbrev patch : Text → MemoPatch
patch content = record {
  name = some "memos/1";
  content = some content;
  visibility = none;
  attachments = none;
  relations = none;
  location = none;
  create_time = none;
  update_time = none;
}

abbrev variables : Text → UpdateVariables
variables content = record { update = patch content; update_mask = "content" ∷ [] }

abbrev holding_memo : Store
holding_memo =
    store.set_query_data (memo_detail "memos/1") (CacheData.a_memo first_memo) (λ _. none)

abbrev refuse : UpdateVariables → Action Store Thrown Memo
refuse v c = (err (a_string "no"), c)

abbrev accept : UpdateVariables → Action Store Thrown Memo
accept v c = (ok (merge_memo first_memo v.update), c)

abbrev shown : Store
shown = (on_mutate_update store (variables (66 ∷ [])) holding_memo).1

update_memo_rolls_back_example :
    ((mutate (use_update_memo store refuse) (variables (66 ∷ [])) holding_memo).0
      ≡ err (a_string "no"))
    × (store.get_query_data
          (memo_detail "memos/1")
          (mutate (use_update_memo store refuse) (variables (66 ∷ [])) holding_memo).1
        ≡ some (CacheData.a_memo first_memo))
unfolding key_eq part_eq
update_memo_rolls_back_example =
    update_memo_rolls_back store refuse (variables (66 ∷ [])) "memos/1" holding_memo shown
      (a_string "no") (memo_detail "memos/1") refl refl refl

update_memo_commits_example :
    ((mutate (use_update_memo store accept) (variables (66 ∷ [])) holding_memo).0
      ≡ ok (merge_memo first_memo (patch (66 ∷ []))))
    × (store.get_query_data
          (memo_detail "memos/1")
          (mutate (use_update_memo store accept) (variables (66 ∷ [])) holding_memo).1
        ≡ some (CacheData.a_memo (merge_memo first_memo (patch (66 ∷ [])))))
    × (store.is_invalidated
          (memo_list "{}")
          (mutate (use_update_memo store accept) (variables (66 ∷ [])) holding_memo).1
        ≡ false)
unfolding key_eq part_eq merge_memo on_mutate_update show_update
update_memo_commits_example =
    update_memo_commits store accept (variables (66 ∷ [])) (merge_memo first_memo (patch (66 ∷ [])))
      holding_memo shown (memo_detail "memos/1") "{}" refl

overlapping_rollbacks_example :
    (store.get_query_data (memo_detail "memos/1") (
        on_error_update store
          (variables (66 ∷ []))
          (on_mutate_update store (variables (66 ∷ [])) holding_memo).0
          (on_error_update store
            (variables (67 ∷ []))
            (on_mutate_update store (variables (67 ∷ [])) shown).0
            (on_mutate_update store (variables (67 ∷ [])) shown).1))
      ≡ some (CacheData.a_memo first_memo))
    × (store.get_query_data (memo_detail "memos/1") (
          on_error_update store
            (variables (67 ∷ []))
            (on_mutate_update store (variables (67 ∷ [])) shown).0
            (on_error_update store
              (variables (66 ∷ []))
              (on_mutate_update store (variables (66 ∷ [])) holding_memo).0
              (on_mutate_update store (variables (67 ∷ [])) shown).1))
        ≡ some (CacheData.a_memo (record first_memo { content = 66 ∷ [] })))
unfolding key_eq part_eq
overlapping_rollbacks_example =
    overlapping_rollbacks store (variables (66 ∷ [])) (variables (67 ∷ [])) "memos/1" first_memo
      holding_memo refl refl refl refl
