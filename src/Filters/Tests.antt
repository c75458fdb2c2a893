-- ===== src/Filters/Tests.antt =====
-- The filters at concrete inputs: a codec that is the identity where nothing needs an escape, and
-- one step for each character elsewhere.
use kube_memos_eks.Filters.Query.{
  MemoFilter, Codec, colon, comma, parse_filter_query, stringify_filters, Provider, sync_from_url,
  commit,
}
use kube_memos_eks.Filters.Query.Laws.{IsUri, parse_filter_query-stringify_filters, commit_settles}
use kube_memos_eks.Filters.Condition.{Sortable, list_sort}
use kube_memos_eks.Filters.Stats.{
  number, Days, StatMemo, use_filtered_memo_stats, aggregate_tag_counts,
}
use kube_memos_eks.Filters.Stats.Laws.{value_of, use_filtered_memo_stats_counts}
use kube_memos_eks.Filters.Condition.Sorting.{AllPairs, MayPrecede, list_sort-IsOrdered}
use kube_memos_eks.Base.{
  ◌==◌, if◌then◌else◌, length, filter, Text, codes, lacks, ℕ, zero, suc, ◌+◌, ◌<◌, ◌≡◌, refl, ap,
  true, false, none, some, List, [], ◌∷◌, arith, str_eq,
}

-- Each code unit n is written as n letters B and an A.
abbrev unary : ℕ → Text → Text
unary zero r = b'A' ∷ r
unary (suc n) r = b'B' ∷ unary n r

abbrev encode : Text → Text
encode [] = []
encode (c ∷ s) = unary c (encode s)

abbrev decode_from : ℕ → Text → Text
decode_from n [] = []
decode_from n (c ∷ s) = if c == b'B' then decode_from (suc n) s else n ∷ decode_from 0 s

decode_from-unary : (n m : ℕ) (r : Text) → decode_from n (unary m r) ≡ (n + m) ∷ decode_from 0 r
decode_from-unary n zero r = ground arith
decode_from-unary n (suc m) r = ground (arith, decode_from-unary (suc n) m r)

decode-encode : (s : Text) → decode_from 0 (encode s) ≡ s
decode-encode [] = refl
decode-encode (c ∷ s) = ground (arith, decode_from-unary 0 c (encode s), decode-encode s)

lacks-unary : (k n : ℕ) (r : Text) → k < 65 → lacks k r ≡ true → lacks k (unary n r) ≡ true
lacks-unary k zero r h l = ground arith
lacks-unary k (suc n) r h l = ground (arith, lacks-unary k n r h l)

lacks-encode : (k : ℕ) (s : Text) → k < 65 → lacks k (encode s) ≡ true
lacks-encode k [] h = refl
lacks-encode k (c ∷ s) h = lacks-unary k c (encode s) h (lacks-encode k s h)

abbrev codec : Codec
codec = record { encode = encode; decode = λ s. some (decode_from 0 s) }

codec-IsUri : IsUri codec
codec-IsUri = record {
  decode_encode = λ s. ap some (decode-encode s);
  encode_colon = λ s. lacks-encode colon s (omega arith);
  encode_comma = λ s. lacks-encode comma s (omega arith);
}

abbrev by_tag : MemoFilter
by_tag = record { factor = codes "tagSearch"; value = 1 ∷ 44 ∷ 2 ∷ [] }

abbrev by_pin : MemoFilter
by_pin = record { factor = codes "pinned"; value = [] }

parse_filter_query-stringify_filters_example :
    parse_filter_query codec (some (stringify_filters codec (by_tag ∷ by_pin ∷ [])))
    ≡ by_tag ∷ by_pin ∷ []
parse_filter_query-stringify_filters_example =
    parse_filter_query-stringify_filters codec-IsUri (by_tag ∷ by_pin ∷ [])
      ((refl, refl), ((refl, refl), tt))

abbrev provider : Provider
provider = record {
  url = some (codes "pinned:0");
  state = record { filters = by_tag ∷ []; shortcut = none };
  last_synced_url = [];
  last_synced_store = [];
}

commit_settles_example :
    (commit codec (commit codec (commit codec provider)) ≡ commit codec (commit codec provider))
    × ((commit codec (commit codec provider)).state ≡ (sync_from_url codec provider).state)
commit_settles_example = commit_settles codec provider

abbrev memos : List Sortable
memos =
    record { is_listed = true; pinned = false; unix = 5 }
    ∷ record { is_listed = false; pinned = false; unix = 6 }
    ∷ record { is_listed = true; pinned = true; unix = 1 }
    ∷ []

list_sort-IsOrdered_example :
    AllPairs (MayPrecede true false) (list_sort true false memos)
    × (length (filter (λ m. m.pinned) (list_sort true false memos)) ≡ 1)
list_sort-IsOrdered_example = list_sort-IsOrdered true false memos (λ m. m.pinned)

abbrev one_day : Days
one_day = record {
  format_day = λ _. "2024-03-09";
  count_by = λ ks. [];
  inherited =
      λ k. if str_eq k "constructor" then some "function Object() { [native code] }" else none;
}

abbrev two_memos : List StatMemo
two_memos =
    record { display_time = some 5; tags = "work" ∷ "home" ∷ [] }
    ∷ record { display_time = some 9; tags = "work" ∷ [] }
    ∷ []

use_filtered_memo_stats_counts_example :
    (value_of "work" (use_filtered_memo_stats one_day none none (some two_memos) false).tags
      ≡ number 2)
    × (value_of "work" (aggregate_tag_counts one_day.inherited [] []) ≡ number 0)
use_filtered_memo_stats_counts_example =
    use_filtered_memo_stats_counts one_day "work" two_memos [] false refl refl
