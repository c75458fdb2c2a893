-- ===== src/Queries.antt =====
-- The cache of server data that the hooks of the web client share: its keys (the key factories of
-- hooks/useMemoQueries.ts, useUserQueries.ts and useAttachmentQueries.ts) and, as a parameter, the
-- client of the query library with the documented behaviour of its methods.
pub mod Mutations
pub mod Memos
pub mod Rollback
pub mod Overlap
pub mod Others
pub mod Store
mod Tests
use kube_memos_eks.MemoEditor.Service.{Memo}
use kube_memos_eks.Base.{
  if◌then◌else◌, is_some, String, ◌≡◌, Bool, true, false, ◌&&◌, ◌||◌, Option, none, some, List, [],
  ◌∷◌, str_eq,
}

-- A part of a key: a text, or a request by its JSON text, by which the library compares it.
pub data KeyPart : Type 0 where
  text request : String → KeyPart

abbrev pub QueryKey : Type 0
QueryKey = List KeyPart

unfoldable pub part_eq : KeyPart → KeyPart → Bool
part_eq (text a) (text b) = str_eq a b
part_eq (text _) (request _) = false
part_eq (request _) (text _) = false
part_eq (request a) (request b) = str_eq a b

unfoldable pub key_eq : QueryKey → QueryKey → Bool
unfolding part_eq
key_eq [] [] = true
key_eq [] (_ ∷ _) = false
key_eq (_ ∷ _) [] = false
key_eq (a ∷ as') (b ∷ bs) = part_eq a b && key_eq as' bs

-- Whether a key starts with the parts of the first.
unfoldable pub is_prefix : QueryKey → QueryKey → Bool
unfolding part_eq
is_prefix [] k = true
is_prefix (_ ∷ _) [] = false
is_prefix (a ∷ as') (b ∷ bs) = part_eq a b && is_prefix as' bs

-- `memoKeys`
abbrev pub memo_lists : QueryKey
memo_lists = text "memos" ∷ text "list" ∷ []

abbrev pub memo_list : String → QueryKey
memo_list filters = text "memos" ∷ text "list" ∷ request filters ∷ []

abbrev pub memo_detail : String → QueryKey
memo_detail name = text "memos" ∷ text "detail" ∷ text name ∷ []

abbrev pub memo_comments : String → QueryKey
memo_comments name = text "memos" ∷ text "comments" ∷ text name ∷ []

-- `userKeys`
abbrev pub user_all : QueryKey
user_all = text "users" ∷ []

abbrev pub user_detail : String → QueryKey
user_detail name = text "users" ∷ text "detail" ∷ text name ∷ []

abbrev pub user_stats : QueryKey
user_stats = text "users" ∷ text "stats" ∷ []

abbrev pub user_stats_of : String → QueryKey
user_stats_of name = text "users" ∷ text "stats" ∷ text name ∷ []

abbrev pub user_current : QueryKey
user_current = text "users" ∷ text "current" ∷ []

abbrev pub user_settings : QueryKey
user_settings = text "users" ∷ text "settings" ∷ []

-- `attachmentKeys`
abbrev pub attachment_lists : QueryKey
attachment_lists = text "attachments" ∷ text "list" ∷ []

abbrev pub attachment_detail : String → QueryKey
attachment_detail name = text "attachments" ∷ text "detail" ∷ text name ∷ []

-- `User` of types/proto/api/v1/user_service_pb.ts, with the field that the hooks read.
pub record User : Type 0 where
  pub name : String

-- What an entry of the cache holds.
pub data CacheData : Type 0 where
  a_memo : Memo → CacheData
  a_user : User → CacheData
  a_list : List Memo → CacheData

-- The query client, over the type of its caches. `invalidate_queries`, `remove_queries` and
-- `cancel_queries` match by prefix; cancelling a fetch keeps the data; data that is set is fresh.
pub record QueryClient (Cache : Type 0) : Type 0 where
  pub get_query_data : QueryKey → Cache → Option CacheData
  pub is_invalidated : QueryKey → Cache → Bool
  pub set_query_data : QueryKey → CacheData → Cache → Cache
  pub invalidate_queries : QueryKey → Cache → Cache
  pub remove_queries : QueryKey → Cache → Cache
  pub cancel_queries : QueryKey → Cache → Cache
  pub clear : Cache → Cache
  pub get-set :
      (k l : QueryKey) (v : CacheData) (c : Cache)
      → get_query_data k (set_query_data l v c)
        ≡ (if key_eq l k then some v else get_query_data k c)
  pub get-invalidate :
      (k p : QueryKey) (c : Cache) → get_query_data k (invalidate_queries p c) ≡ get_query_data k c
  pub get-remove :
      (k p : QueryKey) (c : Cache)
      → get_query_data k (remove_queries p c) ≡ (if is_prefix p k then none else get_query_data k c)
  pub get-cancel :
      (k p : QueryKey) (c : Cache) → get_query_data k (cancel_queries p c) ≡ get_query_data k c
  pub get-clear : (k : QueryKey) (c : Cache) → get_query_data k (clear c) ≡ none
  pub invalidated-set :
      (k l : QueryKey) (v : CacheData) (c : Cache)
      → is_invalidated k (set_query_data l v c) ≡ (if key_eq l k then false else is_invalidated k c)
  pub invalidated-invalidate :
      (k p : QueryKey) (c : Cache)
      → is_invalidated k (invalidate_queries p c)
        ≡ ((is_prefix p k && is_some (get_query_data k c)) || is_invalidated k c)
