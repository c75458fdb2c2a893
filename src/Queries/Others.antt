-- ===== src/Queries/Others.antt =====
-- The mutations of users, of their settings and of attachments (hooks/useUserQueries.ts and
-- useAttachmentQueries.ts), and what a deletion leaves in the cache.
use kube_memos_eks.Queries.{
  QueryKey, QueryClient, CacheData, User, is_prefix, memo_detail, memo_lists, user_all, user_detail,
  user_stats, user_current, user_settings, attachment_lists, attachment_detail,
}
use kube_memos_eks.Queries.Memos.{on_success_delete}
use kube_memos_eks.Base.{if◌then◌else◌, String, ◌≡◌, ◌∙◌, none}

module _ {Cache : Type 0} (q : QueryClient Cache) where
  open q use {
    get_query_data, set_query_data, invalidate_queries, remove_queries, get-invalidate, get-remove,
  }

  -- `onSuccess` of `useUpdateUser`, of `useDeleteUser`, and of `useUpdateUserSetting` and
  -- `useUpdateUserGeneralSetting`.
  unfoldable pub on_success_update_user : User → Cache → Cache
  on_success_update_user u c =
      invalidate_queries user_current (set_query_data (user_detail u.name) (CacheData.a_user u) c)

  unfoldable pub on_success_delete_user : String → Cache → Cache
  on_success_delete_user name c = invalidate_queries user_all (remove_queries (user_detail name) c)

  unfoldable pub on_success_user_setting : Cache → Cache
  on_success_user_setting c = invalidate_queries user_settings c

  -- `onSuccess` of `useCreateAttachment` and of `useDeleteAttachment`.
  unfoldable pub on_success_create_attachment : Cache → Cache
  on_success_create_attachment c = invalidate_queries attachment_lists c

  unfoldable pub on_success_delete_attachment : String → Cache → Cache
  on_success_delete_attachment name c =
      invalidate_queries attachment_lists (remove_queries (attachment_detail name) c)

  -- After a memo, a user or an attachment of a name is deleted, the cache has nothing under the key
  -- of its detail, and under every other key what it had.
  pub deletions_forget :
      (name : String) (k : QueryKey) (c : Cache)
      → (get_query_data k (on_success_delete q name c)
          ≡ (if is_prefix (memo_detail name) k then none else get_query_data k c))
        × (get_query_data k (on_success_delete_user name c)
            ≡ (if is_prefix (user_detail name) k then none else get_query_data k c))
        × (get_query_data k (on_success_delete_attachment name c)
            ≡ (if is_prefix (attachment_detail name) k then none else get_query_data k c))
  unfolding on_success_delete on_success_delete_user on_success_delete_attachment
  deletions_forget name k c = (
    get-invalidate k user_stats _
        ∙ get-invalidate k memo_lists _
        ∙ get-remove k (memo_detail name) c,
    get-invalidate k user_all _ ∙ get-remove k (user_detail name) c,
    get-invalidate k attachment_lists _ ∙ get-remove k (attachment_detail name) c,
  )
