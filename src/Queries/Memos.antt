-- ===== src/Queries/Memos.antt =====
-- The mutations of memos (hooks/useMemoQueries.ts): the one that updates shows the update at once and
-- takes it back when the server refuses it.
use kube_memos_eks.Queries.{QueryClient, CacheData, memo_lists, memo_detail, user_stats}
use kube_memos_eks.Queries.Mutations.{Mutation}
use kube_memos_eks.MemoEditor.Service.{Memo, MemoPatch}
use kube_memos_eks.Base.{
  if◌then◌else◌, truthy_string, nullish, Action, String, Option, none, some, List,
}

-- `{ ...previousMemo, ...update }`
unfoldable pub merge_memo : Memo → MemoPatch → Memo
merge_memo m u = record {
  name = nullish u.name m.name;
  content = nullish u.content m.content;
  visibility = nullish u.visibility m.visibility;
  attachments = nullish u.attachments m.attachments;
  relations = nullish u.relations m.relations;
  location = nullish u.location m.location;
  create_time = elim u.create_time [ none ↦ m.create_time | some t ↦ some t ];
  update_time = elim u.update_time [ none ↦ m.update_time | some t ↦ some t ];
}

-- The memo that the entry of a memo's detail holds; the other entries have other keys.
unfoldable pub merge_data : CacheData → MemoPatch → CacheData
merge_data (CacheData.a_memo m) u = CacheData.a_memo (merge_memo m u)
merge_data (CacheData.a_user v) u = CacheData.a_user v
merge_data (CacheData.a_list ms) u = CacheData.a_list ms

pub record UpdateVariables : Type 0 where
  pub update : MemoPatch
  pub update_mask : List String

module _ {Cache : Type 0} (q : QueryClient Cache) where
  open q use {get_query_data, set_query_data, invalidate_queries, remove_queries, cancel_queries}

  -- The snapshot is written back merged where there is one.
  unfoldable pub show_update :
      String → MemoPatch → Option CacheData → Cache → Option CacheData × Cache
  show_update name u none c = (none, c)
  show_update name u (some previous) c =
      (some previous, set_query_data (memo_detail name) (merge_data previous u) c)

  -- `onMutate` of `useUpdateMemo`; its context is the snapshot of the memo, if there is one.
  unfoldable pub on_mutate_update : UpdateVariables → Cache → Option CacheData × Cache
  on_mutate_update v c =
      if truthy_string v.update.name
      then show_update (nullish v.update.name "") v.update
          (get_query_data (memo_detail (nullish v.update.name ""))
            (cancel_queries (memo_detail (nullish v.update.name "")) c))
          (cancel_queries (memo_detail (nullish v.update.name "")) c)
      else (none, c)

  -- `onError` of `useUpdateMemo`
  unfoldable pub on_error_update : UpdateVariables → Option CacheData → Cache → Cache
  on_error_update v none c = c
  on_error_update v (some previous) c =
      if truthy_string v.update.name
      then set_query_data (memo_detail (nullish v.update.name "")) previous c
      else c

  -- `onSuccess` of `useUpdateMemo`
  unfoldable pub on_success_update : Memo → Cache → Cache
  on_success_update m c =
      invalidate_queries user_stats
        (invalidate_queries memo_lists (set_query_data (memo_detail m.name) (CacheData.a_memo m) c))

  -- `onSuccess` of `useCreateMemo`
  unfoldable pub on_success_create : Memo → Cache → Cache
  on_success_create m c =
      invalidate_queries user_stats
        (set_query_data (memo_detail m.name) (CacheData.a_memo m) (invalidate_queries memo_lists c))

  -- `onSuccess` of `useDeleteMemo`
  unfoldable pub on_success_delete : String → Cache → Cache
  on_success_delete name c =
      invalidate_queries user_stats
        (invalidate_queries memo_lists (remove_queries (memo_detail name) c))

  -- `useUpdateMemo`, `useCreateMemo` and `useDeleteMemo` over the server's calls.
  abbrev pub use_update_memo :
      {E : Type 0}
      → (UpdateVariables → Action Cache E Memo)
      → Mutation Cache E (Option CacheData) UpdateVariables Memo
  use_update_memo update_memo = record {
    on_mutate = on_mutate_update;
    mutation_fn = update_memo;
    on_error = on_error_update;
    on_success = on_success_update;
  }

  abbrev pub use_create_memo :
      {E : Type 0} → (Memo → Action Cache E Memo) → Mutation Cache E (Unit {0}) Memo Memo
  use_create_memo create_memo = record {
    on_mutate = λ _ c. (tt, c);
    mutation_fn = create_memo;
    on_error = λ _ _ c. c;
    on_success = on_success_create;
  }

  abbrev pub use_delete_memo :
      {E : Type 0} → (String → Action Cache E String) → Mutation Cache E (Unit {0}) String String
  use_delete_memo delete_memo = record {
    on_mutate = λ _ c. (tt, c);
    mutation_fn = delete_memo;
    on_error = λ _ _ c. c;
    on_success = on_success_delete;
  }
