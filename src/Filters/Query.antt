-- ===== src/Filters/Query.antt =====
-- The active filters, and how they stand in the page's url (contexts/MemoFilterContext.tsx).
-- `encodeURIComponent` and `decodeURIComponent` are the platform's: arguments, the second of which
-- throws a URIError on malformed text. A factor is kept as the text that it is, since a parsed one is
-- not checked. So is lodash's `uniqBy`, with the key first.

use mathlib.Core.Option
pub mod Laws
use kube_memos_eks.Base.{
  ltb, if◌then◌else◌, is_some, nullish, length, filter, any, Text, text_eq, join, split_at, split,
  ℕ, String, Bool, not, ◌||◌, Option, none, some, List, [], ◌∷◌, ◌++◌, map,
}

pub record MemoFilter : Type 0 where
  pub factor : Text
  pub value : Text

abbrev pub colon : ℕ
colon = b':'

abbrev pub comma : ℕ
comma = b','

-- `getMemoFilterKey`
abbrev pub get_memo_filter_key : MemoFilter → Text
get_memo_filter_key f = f.factor ++ colon ∷ f.value

-- `encodeURIComponent` and `decodeURIComponent`. A text with half of a surrogate pair, on which the
-- first throws, is not among those that a filter holds.
pub record Codec : Type 0 where
  pub encode : Text → Text
  pub decode : Text → Option Text

-- `const [factor, value] = filterStr.split(":")`, and the filter that it makes.
abbrev pub value_of : List Text → Text
value_of [] = []
value_of (v ∷ _) = v

abbrev pub parse_filter : Codec → Text → Option MemoFilter
parse_filter codec s =
    Option.map (λ v. record { factor = (split_at colon s).0; value = v })
      (codec.decode (value_of (split_at colon s).1))

abbrev pub with_filter : Option MemoFilter → Option (List MemoFilter) → Option (List MemoFilter)
with_filter none rest = none
with_filter (some f) none = none
with_filter (some f) (some fs) = some (f ∷ fs)

-- `map` with a function that may throw.
abbrev pub parse_all : Codec → List Text → Option (List MemoFilter)
parse_all codec [] = some []
parse_all codec (s ∷ ss) = with_filter (parse_filter codec s) (parse_all codec ss)

-- `parseFilterQuery`: `null` and "" are falsy, and a thrown error gives no filters.
unfoldable pub parse_filter_query : Codec → Option Text → List MemoFilter
parse_filter_query codec none = []
parse_filter_query codec (some []) = []
parse_filter_query codec (some (c ∷ s)) = nullish (parse_all codec (split comma (c ∷ s))) []

abbrev pub stringify_filter : Codec → MemoFilter → Text
stringify_filter codec f = f.factor ++ colon ∷ codec.encode f.value

-- `stringifyFilters`
unfoldable pub stringify_filters : Codec → List MemoFilter → Text
stringify_filters codec filters = join (comma ∷ []) (map (stringify_filter codec) filters)

pub record Filters : Type 0 where
  pub filters : List MemoFilter
  pub shortcut : Option String

-- `addFilter`, `removeFilter`, `removeFiltersByFactor`, `clearAllFilters`, `hasFilter`,
-- `hasActiveFilters` and `getFiltersByFactor`
unfoldable pub add_filter :
    ((MemoFilter → Text) → List MemoFilter → List MemoFilter) → MemoFilter → Filters → Filters
add_filter uniq_by f s = record s { filters = uniq_by get_memo_filter_key (s.filters ++ f ∷ []) }

unfoldable pub remove_filter : (MemoFilter → Bool) → Filters → Filters
remove_filter p s = record s { filters = filter (λ f. not (p f)) s.filters }

unfoldable pub remove_filters_by_factor : Text → Filters → Filters
remove_filters_by_factor factor s = record s {
  filters = filter (λ f. not (text_eq f.factor factor)) s.filters;
}

unfoldable pub clear_all_filters : Filters → Filters
clear_all_filters s = record { filters = []; shortcut = none }

unfoldable pub has_filter : MemoFilter → Filters → Bool
has_filter f s = any (λ g. text_eq (get_memo_filter_key g) (get_memo_filter_key f)) s.filters

unfoldable pub get_filters_by_factor : Text → Filters → List MemoFilter
get_filters_by_factor factor s = filter (λ f. text_eq f.factor factor) s.filters

unfoldable pub has_active_filters : Filters → Bool
has_active_filters s = ltb 0 (length s.filters) || is_some s.shortcut

-- The provider: the url's `filter` parameter, the filters, and what was last synchronised.
pub record Provider : Type 0 where
  pub url : Option Text
  pub state : Filters
  pub last_synced_url : Text
  pub last_synced_store : Text

module _ (codec : Codec) where
  -- The first effect, when the url changed.
  unfoldable pub sync_from_url : Provider → Provider
  sync_from_url p =
      let param = nullish p.url [] in
      if text_eq param p.last_synced_url then p else record p {
        last_synced_url = param;
        state = record p.state { filters = parse_filter_query codec (some param) };
        last_synced_store = stringify_filters codec (parse_filter_query codec (some param));
      }

  -- The second effect, with the filters of the render that it belongs to.
  unfoldable pub sync_to_url : List MemoFilter → Provider → Provider
  sync_to_url rendered p =
      let store = stringify_filters codec rendered in
      if text_eq store p.last_synced_store || text_eq store p.last_synced_url
      then p
      else if ltb 0 (length rendered)
      then record p { last_synced_store = store; url = some store; last_synced_url = store }
      else record p { last_synced_store = store; url = none; last_synced_url = [] }

  -- A render and its effects, in order: the filters that the first one sets are rendered by the next
  -- commit. An effect whose dependencies did not change finds nothing to do.
  unfoldable pub commit : Provider → Provider
  commit p = sync_to_url p.state.filters (sync_from_url p)
