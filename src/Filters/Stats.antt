-- ===== src/Filters/Stats.antt =====
-- The counts of tags and of active days that the sidebar shows (hooks/useFilteredMemoStats.ts, and
-- useTagCounts of hooks/useUserQueries.ts). The days of dayjs and lodash's `countBy` are parameters, and
-- so is what every object inherits: the truthy value that a name such as "constructor" finds there, as
-- it is printed. A record of counts is the list of its own keys in the order of their insertion.
pub mod Laws
use kube_memos_eks.Base.{
  if◌then◌else◌, truthy_string, is_some, nullish, ℕ, ◌+◌, String, Bool, ◌&&◌, Option, none, some,
  List, [], ◌∷◌, ◌++◌, map, str_eq,
}

-- A value of a record of counts: a number, or a text, which is what was inherited, printed, with the
-- numbers that were added to it behind it.
pub data Count : Type 0 where
  number : ℕ → Count
  text : String → List ℕ → Count

abbrev pub Counts : Type 0
Counts = List (String × Count)

abbrev pub count_of : String → Counts → Option Count
count_of k [] = none
count_of k ((j, v) ∷ rest) = if str_eq j k then some v else count_of k rest

abbrev pub put_count : String → Count → Counts → Counts
put_count k v [] = (k, v) ∷ []
put_count k v ((j, u) ∷ rest) = if str_eq j k then (j, v) ∷ rest else (j, u) ∷ put_count k v rest

-- `(tagCount[tag] || 0) + count`, from the record's own value and from the inherited one.
abbrev pub increased : Option Count → Option String → ℕ → Count
increased (some (number m)) inherited n = number (m + n)
increased (some (text s ns)) inherited n = text s (ns ++ n ∷ [])
increased none (some s) n = text s (n ∷ [])
increased none none n = number n

module _ (inherited : String → Option String) where
  -- The assignment; one of a text or a number to `__proto__` does nothing.
  abbrev pub add_count : String → ℕ → Counts → Counts
  add_count k n c =
      if str_eq k "__proto__" then c else put_count k (increased (count_of k c) (inherited k) n) c

  abbrev pub add_counts : List (String × ℕ) → Counts → Counts
  add_counts [] c = c
  add_counts ((k, n) ∷ rest) c = add_counts rest (add_count k n c)

-- A memo, as far as the counts read it.
pub record StatMemo : Type 0 where
  pub display_time : Option ℕ
  pub tags : List String

pub record UserStats : Type 0 where
  pub memo_display_timestamps : List (Option ℕ)
  pub tag_count : Option (List (String × ℕ))

abbrev pub one_each : List String → List (String × ℕ)
one_each ks = map (λ k. (k, 1)) ks

-- The times that are there.
abbrev pub present : List (Option ℕ) → List ℕ
present [] = []
present (none ∷ ts) = present ts
present (some t ∷ ts) = t ∷ present ts

module _ (inherited : String → Option String) where
  -- The loop over the memos and their tags.
  unfoldable pub count_tags : List StatMemo → Counts → Counts
  count_tags [] c = c
  count_tags (m ∷ ms) c = count_tags ms (add_counts inherited (one_each m.tags) c)

  -- The aggregation of `useTagCounts` over all users.
  unfoldable pub aggregate_tag_counts : List UserStats → Counts → Counts
  aggregate_tag_counts [] c = c
  aggregate_tag_counts (u ∷ us) c =
      aggregate_tag_counts us (add_counts inherited (nullish u.tag_count []) c)

pub record FilteredStats : Type 0 where
  pub activity_stats : List (String × ℕ)
  pub tags : Counts
  pub loading : Bool

-- `dayjs(date).format("YYYY-MM-DD")`, lodash's `countBy`, and what every object inherits.
pub record Days : Type 0 where
  pub format_day : ℕ → String
  pub count_by : List String → List (String × ℕ)
  pub inherited : String → Option String

module _ (d : Days) where
  open d use {format_day, count_by, inherited}

  abbrev pub count_days : List ℕ → List (String × ℕ)
  count_days ts = count_by (map format_day ts)

  -- A record of numbers that the server sent.
  abbrev pub numbers : List (String × ℕ) → Counts
  numbers ps = map (λ q. (q.0, number q.1)) ps

  -- The callback of `useMemo`, with the user's name, the user's statistics, the memos, and whether
  -- either is loading. An empty name is falsy.
  unfoldable pub use_filtered_memo_stats :
      Option String → Option UserStats → Option (List StatMemo) → Bool → FilteredStats
  use_filtered_memo_stats user_name user_stats memos loading =
      if truthy_string user_name && is_some user_stats
      then record {
        activity_stats = elim user_stats [
          | none ↦ []
          | some u ↦ count_days (present u.memo_display_timestamps)
        ];
        tags = elim user_stats [ none ↦ [] | some u ↦ numbers (nullish u.tag_count []) ];
        loading = loading;
      }
      else record {
        activity_stats = count_days (present (map (λ m. m.display_time) (nullish memos [])));
        tags = count_tags inherited (nullish memos []) [];
        loading = loading;
      }
