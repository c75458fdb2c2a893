-- ===== src/View/Masonry/Layout.antt =====
-- The layout that the masonry view keeps (components/MasonryView/useMasonryLayout.ts): the number of
-- columns, the heights, the distribution, and the timer of the redistribution, with the memos that its
-- callback was made for. A run is a sequence of events of the page, each followed by the effects of
-- the render that it causes.
pub mod Runs
use kube_memos_eks.View.Masonry.{Heights, DistributionResult, distribute_items_to_columns}
use kube_memos_eks.Base.{
  leb, ◌==◌, if◌then◌else◌, ℕ, ◌+◌, ◌-◌, ◌*◌, ◌/◌, String, Bool, false, Option, none, some, List,
  [], ◌∷◌, str_eq,
}

-- `MINIMUM_MEMO_VIEWPORT_WIDTH`
abbrev pub minimum_memo_viewport_width : ℕ
minimum_memo_viewport_width = 512

-- `calculateColumns` for a container of that width: the scale is at least 1.2, or there is one column.
unfoldable pub calculate_columns : Bool → Option ℕ → ℕ
calculate_columns list_mode none = 1
calculate_columns list_mode (some width) =
    if list_mode
    then 1
    else if leb (12 * minimum_memo_viewport_width) (10 * width)
    then (width + minimum_memo_viewport_width - 1) / minimum_memo_viewport_width
    else 1

-- A memo is its name.
abbrev pub HeightMap : Type 0
HeightMap = String → Option ℕ

-- What the timer's callback holds: the memos and the columns of the render that made it, and the
-- heights that it was given.
pub record Timer : Type 0 where
  pub memos : List String
  pub columns : ℕ
  pub heights : HeightMap

pub record Layout : Type 0 where
  pub memos : List String
  pub columns : ℕ
  pub item_heights : HeightMap
  pub distribution : List (List ℕ)
  pub timer : Option Timer

-- `setDistribution` with what `distributeItemsToColumns` returns; without columns it throws, and the
-- distribution stays.
abbrev pub set_distribution : List (List ℕ) → Option DistributionResult → List (List ℕ)
set_distribution old none = old
set_distribution old (some r) = r.distribution

abbrev pub distributed : HeightMap → List String → ℕ → ℕ → List (List ℕ) → List (List ℕ)
distributed heights memos columns prefix old =
    set_distribution old
      (distribute_items_to_columns (record { height_of = heights }) memos columns prefix)

-- `redistributeMemos`, with the height of the prefix element.
unfoldable pub redistribute_memos : ℕ → Layout → Layout
redistribute_memos prefix l = record l {
  distribution = distributed l.item_heights l.memos l.columns prefix l.distribution;
}

-- The effect on a new list of memos.
unfoldable pub change_memos : ℕ → List String → Layout → Layout
unfolding redistribute_memos
change_memos prefix memos l = redistribute_memos prefix (record l { memos = memos })

-- `handleResize`, and the effect on a new number of columns.
unfoldable pub handle_resize : ℕ → Bool → Option ℕ → Layout → Layout
unfolding redistribute_memos
handle_resize prefix list_mode none l = l
handle_resize prefix list_mode (some width) l =
    let columns = calculate_columns list_mode (some width) in
    if columns == l.columns then l else redistribute_memos prefix (record l { columns = columns })

abbrev pub same_height : Option ℕ → ℕ → Bool
same_height none h = false
same_height (some g) h = g == h

-- `newItemHeights.set(memoName, height)`
abbrev pub set_height : String → ℕ → HeightMap → HeightMap
set_height name height heights n = if str_eq name n then some height else heights n

-- `handleHeightChange` with `debouncedRedistribute`: a timer that is pending is replaced.
unfoldable pub handle_height_change : String → ℕ → Layout → Layout
handle_height_change name height l =
    if same_height (l.item_heights name) height then l else record l {
      item_heights = set_height name height l.item_heights;
      timer = some (record {
        memos = l.memos;
        columns = l.columns;
        heights = set_height name height l.item_heights;
      });
    }

-- The timer's callback.
abbrev pub fire : ℕ → Option Timer → Layout → Layout
fire prefix none l = l
fire prefix (some t) l = record l {
  distribution = distributed t.heights t.memos t.columns prefix l.distribution;
  timer = none;
}

unfoldable pub run_timer : ℕ → Layout → Layout
run_timer prefix l = fire prefix l.timer l

-- The first values of the states.
abbrev pub initial_layout : List String → Layout
initial_layout memos = record {
  memos = memos;
  columns = 1;
  item_heights = λ _. none;
  distribution = [] ∷ [];
  timer = none;
}

-- The layout after the effects of the first render.
unfoldable pub mounted : ℕ → List String → Layout
mounted prefix memos = redistribute_memos prefix (initial_layout memos)
