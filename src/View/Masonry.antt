-- ===== src/View/Masonry.antt =====
-- The columns of the masonry view (components/MasonryView/distributeItems.ts, and the column count
-- and the heights of useMasonryLayout.ts). Heights are pixels, as `offsetHeight` gives them.
pub mod Shortest
pub mod Columns
pub mod Balance
pub mod Layout
use kube_memos_eks.Base.{
  ltb, ◌==◌, if◌then◌else◌, nullish, ℕ, zero, suc, ◌+◌, Bool, true, ◌&&◌, Option, none, some, List,
  [], ◌∷◌, ◌++◌, map,
}

pub record Column : Type 0 where
  pub items : List ℕ
  pub height : ℕ
  pub count : ℕ

pub record DistributionResult : Type 0 where
  pub distribution : List (List ℕ)
  pub column_heights : List ℕ

-- `itemHeights.get(name) || 0`
pub record Heights (Memo : Type 0) : Type 0 where
  pub height_of : Memo → Option ℕ

-- One step of the loop of `findShortestColumnIndex` at column i: the three arrays are read at i and
-- at the index found before.
abbrev pub is_better : Column → Column → Bool
is_better c best =
    if ltb c.height best.height then true else c.height == best.height && ltb c.count best.count

-- `findShortestColumnIndex` from column i on.
abbrev pub shortest_from : List Column → ℕ → ℕ → Column → ℕ
shortest_from [] i min_index best = min_index
shortest_from (c ∷ cs) i min_index best =
    if is_better c best
    then shortest_from cs (suc i) i c
    else shortest_from cs (suc i) min_index best

-- `findShortestColumnIndex`
unfoldable pub find_shortest_column_index : List Column → ℕ
find_shortest_column_index [] = 0
find_shortest_column_index (c ∷ cs) = shortest_from cs 1 0 c

abbrev pub push_item : ℕ → ℕ → Column → Column
push_item i height c = record {
  items = c.items ++ (i ∷ []);
  height = c.height + height;
  count = c.count + 1;
}

abbrev pub push_at : List Column → ℕ → ℕ → ℕ → List Column
push_at [] k i height = []
push_at (c ∷ cs) zero i height = push_item i height c ∷ cs
push_at (c ∷ cs) (suc k) i height = c ∷ push_at cs k i height

-- The loop over the memos from index i on, given their heights.
abbrev pub distribute_from : List ℕ → ℕ → List Column → List Column
distribute_from [] i cs = cs
distribute_from (h ∷ hs) i cs =
    distribute_from hs (suc i) (push_at cs (find_shortest_column_index cs) i h)

abbrev pub empty_column : Column
empty_column = record { items = []; height = 0; count = 0 }

abbrev pub empty_columns : ℕ → List Column
empty_columns zero = []
empty_columns (suc n) = empty_column ∷ empty_columns n

abbrev pub sum : List ℕ → ℕ
sum [] = 0
sum (h ∷ hs) = h + sum hs

abbrev pub indices_from : ℕ → List ℕ → List ℕ
indices_from i [] = []
indices_from i (h ∷ hs) = i ∷ indices_from (suc i) hs

abbrev pub result_of : List Column → DistributionResult
result_of cs = record {
  distribution = map (λ c. c.items) cs;
  column_heights = map (λ c. c.height) cs;
}

abbrev pub start_columns : ℕ → ℕ → List Column
start_columns prefix n = record empty_column { height = prefix } ∷ empty_columns n

-- The first memo goes to the first column, the others to the shortest.
abbrev pub distribute_all : List ℕ → ℕ → ℕ → List Column
distribute_all [] prefix n = start_columns prefix n
distribute_all (h ∷ hs) prefix n = distribute_from hs 1 (push_at (start_columns prefix n) 0 0 h)

module _ {Memo : Type 0} (heights : Heights Memo) where
  abbrev pub heights_of : List Memo → List ℕ
  heights_of memos = map (λ m. nullish (heights.height_of m) 0) memos

  -- `distributeItemsToColumns`. Without columns, a memo has no column to be pushed to: `none` is the
  -- TypeError.
  unfoldable pub distribute_items_to_columns : List Memo → ℕ → ℕ → Option DistributionResult
  distribute_items_to_columns [] zero prefix =
      some (record { distribution = []; column_heights = if ltb 0 prefix then prefix ∷ [] else [] })
  distribute_items_to_columns (_ ∷ _) zero prefix = none
  distribute_items_to_columns memos (suc zero) prefix = some (record {
    distribution = indices_from 0 (heights_of memos) ∷ [];
    column_heights = (prefix + sum (heights_of memos)) ∷ [];
  })
  distribute_items_to_columns memos (suc (suc n)) prefix =
      some (result_of (distribute_all (heights_of memos) prefix (suc n)))
