-- ===== src/View/Tests.antt =====
-- The layout and the themes at concrete inputs.
use kube_memos_eks.View.Masonry.{
  Column, Heights, DistributionResult, find_shortest_column_index, distribute_items_to_columns, sum,
}
use kube_memos_eks.View.Theme.{Page}
use kube_memos_eks.View.Masonry.Balance.{Apart, distribute_items_to_columns_balanced}
use kube_memos_eks.View.Calendar.{Dayjs, CalendarParams, CalendarDayCell, use_calendar_matrix}
use kube_memos_eks.View.Calendar.Weeks.{weeks_from, grid_cell, use_calendar_matrix_aligned}
use kube_memos_eks.View.TagTree.{TagAmount, sort_tags, amount_at, build_tags}
use kube_memos_eks.View.TagTree.Paths.{lookup, starts_path, build_tags-lookup}
use kube_memos_eks.View.TagTree.Amounts.{build_tags-own_amount}
use mathlib.Core.Option
use kube_memos_eks.View.Masonry.Layout.{Layout, mounted, handle_height_change}
use kube_memos_eks.View.Masonry.Layout.Runs.{ShowsAt, here, next, measures, layout_shows_all}
use kube_memos_eks.View.Settings.{
  LayoutMode, StoredView, ViewJson, stored_of, default_view, toggles, sets, run, get_initial_state,
  get_initial_state-run,
}
use kube_memos_eks.View.Locale.{
  OrderBy, find_nearest_matched_language, get_locale_with_fallback, load_locale,
}
use kube_memos_eks.View.Locale.Known.{IsLocale, locale_known}
use kube_memos_eks.Base.{
  ◌==◌, if◌then◌else◌, truthy, find, codes, split, ℕ, ◌+◌, ◌-◌, ◌*◌, ◌%◌, ◌≤◌, ◌<◌, String, ◌≡◌,
  refl, Bool, true, false, ◌||◌, Option, none, some, List, [], ◌∷◌, arith, str_eq,
}

abbrev column : ℕ → ℕ → Column
column h n = record { items = []; height = h; count = n }

-- A memo is its height.
abbrev known_heights : Heights ℕ
known_heights = record { height_of = some }

distributed :
    distribute_items_to_columns known_heights (50 ∷ 20 ∷ 40 ∷ []) 2 0
    ≡ some (record { distribution = (0 ∷ []) ∷ (1 ∷ 2 ∷ []) ∷ []; column_heights = 50 ∷ 60 ∷ [] })
unfolding distribute_items_to_columns find_shortest_column_index
distributed = refl

abbrev fresh_page : Page
fresh_page = record {
  style = none;
  data_theme = none;
  prefers_dark = true;
  storage = record { available = true; has_room = true; items = λ _. none };
}

distribute_items_to_columns_balanced_example :
    (r : DistributionResult) × (distribute_items_to_columns known_heights (50 ∷ 20 ∷ 40 ∷ []) 2 0
      ≡ some r)
    × (sum r.column_heights ≡ 110)
    × Apart 50 r.column_heights
distribute_items_to_columns_balanced_example =
    distribute_items_to_columns_balanced known_heights (50 ∷ 20 ∷ 40 ∷ []) 1 0 50
      (omega arith, (omega arith, (omega arith, tt)))

-- A day is a number of days after a Sunday less another; every month has 31 days.
abbrev numbered_days : Dayjs (ℕ × ℕ)
numbered_days = record {
  day = λ d. (d.0 + 6 * d.1) % 7;
  date = λ d. d.0 - d.1;
  iso_date = λ d. if d.0 == 11 then "2024-03-09" else "";
  iso_month = λ _. "2024-03";
  parse_month = λ _. (5, 0);
  start_of_month = λ d. d;
  end_of_month = λ d. (d.0 + 30, d.1);
  add_days = λ d n. (d.0 + n, d.1);
  subtract_days = λ d n. (d.0, d.1 + n);
  diff_days = λ a b. a.0 + b.1 - (a.1 + b.0);
  day_bound = λ d. omega arith;
  day-add_days = λ d n. omega arith;
  day-subtract_days = λ d n. omega arith;
  day-end_of_month = λ d. omega arith;
  diff_days-widened = λ d a b. omega arith;
}

abbrev march : CalendarParams
march = record {
  month = "2024-03";
  counts = ("2024-03-09", 3) ∷ [];
  week_days = "Sun" ∷ "Mon" ∷ "Tue" ∷ "Wed" ∷ "Thu" ∷ "Fri" ∷ "Sat" ∷ [];
  week_start_day_offset = 1;
  today = "";
  selected_date = "";
}

use_calendar_matrix_aligned_example :
    (n : ℕ) × ((use_calendar_matrix numbered_days march).weeks
      ≡ weeks_from (grid_cell numbered_days march) 0 n)
    × (7 * n ≡ 4 + 31 + 0)
    × (4 < 7)
    × (0 < 7)
use_calendar_matrix_aligned_example = use_calendar_matrix_aligned numbered_days march (omega arith)

abbrev day_with : ℕ → CalendarDayCell
day_with n = record {
  date = "";
  label = 1;
  count = n;
  is_current_month = true;
  is_today = false;
  is_selected = false;
  is_weekend = false;
}

abbrev tag_amounts : List TagAmount
tag_amounts = (codes "a/b", 4) ∷ (codes "a", 3) ∷ (codes "c", 1) ∷ []

build_tags-lookup_example :
    lookup none (codes "a" ∷ codes "b" ∷ []) (build_tags tag_amounts)
    ≡ Option.map
        (λ t. amount_at (sort_tags tag_amounts) t.1 (codes "a/b"))
        (find
          (λ t. starts_path (codes "a" ∷ codes "b" ∷ []) (split 47 t.0))
          (sort_tags tag_amounts))
build_tags-lookup_example = build_tags-lookup tag_amounts (codes "a") (codes "b" ∷ [])

build_tags-own_amount_example :
    lookup none (codes "a" ∷ codes "b" ∷ []) (build_tags tag_amounts) ≡ some 4
build_tags-own_amount_example = build_tags-own_amount tag_amounts (codes "a/b", 4) refl refl

-- A list of one memo, measured, then grown by another.
abbrev one_memo : Layout
one_memo = mounted 0 ("memos/1" ∷ [])

layout_shows_all_example :
    (1 ≤ (handle_height_change "memos/1" 40 one_memo).columns)
    × ShowsAt 0
        (handle_height_change "memos/1" 40 one_memo).memos
        (handle_height_change "memos/1" 40 one_memo).columns
        (handle_height_change "memos/1" 40 one_memo).distribution
layout_shows_all_example =
    layout_shows_all 0 0 (handle_height_change "memos/1" 40 one_memo)
      (next (here ("memos/1" ∷ [])) (measures "memos/1" 40 one_memo))

-- The four settings, written as one digit.
abbrev digit_of : Bool → LayoutMode → String
digit_of true LayoutMode.list = "1"
digit_of true LayoutMode.masonry = "2"
digit_of false LayoutMode.list = "3"
digit_of false LayoutMode.masonry = "4"

abbrev read_digit : String → Option StoredView
read_digit s = some (record {
  order_by_time_asc = some (str_eq s "1" || str_eq s "2");
  layout = some (if str_eq s "1" || str_eq s "3" then "LIST" else "MASONRY");
})

pub read_digit-digit_of :
    (b : Bool) (m : LayoutMode)
    → read_digit (digit_of b m) ≡ some (stored_of (record { order_by_time_asc = b; layout = m }))
read_digit-digit_of true LayoutMode.list = refl
read_digit-digit_of true LayoutMode.masonry = refl
read_digit-digit_of false LayoutMode.list = refl
read_digit-digit_of false LayoutMode.masonry = refl

pub truthy-digit_of : (b : Bool) (m : LayoutMode) → truthy (digit_of b m) ≡ true
truthy-digit_of true LayoutMode.list = refl
truthy-digit_of true LayoutMode.masonry = refl
truthy-digit_of false LayoutMode.list = refl
truthy-digit_of false LayoutMode.masonry = refl

abbrev digits : ViewJson
digits = record {
  stringify = λ s. digit_of s.order_by_time_asc s.layout;
  parse = read_digit;
  parse-stringify = λ s. read_digit-digit_of s.order_by_time_asc s.layout;
  stringify-truthy = λ s. truthy-digit_of s.order_by_time_asc s.layout;
}

get_initial_state-run_example :
    get_initial_state digits
      (run digits (toggles ∷ sets LayoutMode.masonry ∷ []) (default_view, fresh_page.storage)).1
    ≡ (run digits (toggles ∷ sets LayoutMode.masonry ∷ []) (default_view, fresh_page.storage)).0
get_initial_state-run_example =
    get_initial_state-run digits toggles (sets LayoutMode.masonry ∷ []) default_view
      fresh_page.storage refl refl

abbrev unordered : OrderBy
unordered = record { order_by = λ xs. xs; includes-order_by = λ xs x. refl }

locale_known_example :
    IsLocale unordered (find_nearest_matched_language unordered "zh-TW")
    × IsLocale unordered (get_locale_with_fallback unordered "zh-TW" (some "xx") fresh_page.storage)
    × IsLocale unordered
        (load_locale unordered "zh-TW" "pt"
          (record { language = none; storage = fresh_page.storage })).0
locale_known_example =
    locale_known unordered "zh-TW" "pt" (some "xx")
      (record { language = none; storage = fresh_page.storage })
