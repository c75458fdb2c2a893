-- ===== src/View/Calendar.antt =====
-- The activity calendar (components/ActivityCalendar/useCalendar.ts and utils.ts). Dates are those of
-- dayjs, a parameter with the documented behaviour of its methods. Counts are compared by products in
-- place of a quotient, which is exact for them.
pub mod Weeks
pub mod Levels
use kube_memos_eks.Base.{
  ltb, ◌==◌, if◌then◌else◌, nullish, take, drop, ℕ, zero, suc, ◌+◌, ◌-◌, ◌/◌, ◌%◌, ◌<◌, String, ◌≡◌,
  Bool, ◌||◌, Option, none, some, List, [], ◌∷◌, ◌++◌, str_eq,
}

abbrev pub days_in_week : ℕ
days_in_week = 7

abbrev pub min_count : ℕ
min_count = 1

-- The dates of dayjs: the day of the week is from 0 to 6 and goes on by one with each day, and the
-- difference in days of a month's end and its start is the number of its days less one.
pub record Dayjs (Date : Type 0) : Type 0 where
  pub day : Date → ℕ
  pub date : Date → ℕ
  pub iso_date : Date → String
  pub iso_month : Date → String
  pub parse_month : String → Date
  pub start_of_month : Date → Date
  pub end_of_month : Date → Date
  pub add_days : Date → ℕ → Date
  pub subtract_days : Date → ℕ → Date
  pub diff_days : Date → Date → ℕ
  pub day_bound : (d : Date) → day d < 7
  pub day-add_days : (d : Date) (n : ℕ) → day (add_days d n) ≡ (day d + n) % 7
  pub day-subtract_days : (d : Date) (n : ℕ) → (day (subtract_days d n) + n) % 7 ≡ day d
  pub day-end_of_month :
      (d : Date)
      → day (end_of_month (start_of_month d))
        ≡ (day (start_of_month d) + diff_days (end_of_month (start_of_month d)) (start_of_month d))
          % 7
  pub diff_days-widened :
      (d : Date) (a b : ℕ)
      → diff_days
          (add_days (end_of_month (start_of_month d)) a)
          (subtract_days (start_of_month d) b)
        ≡ b + diff_days (end_of_month (start_of_month d)) (start_of_month d) + a

-- `CalendarDayCell`
pub record CalendarDayCell : Type 0 where
  pub date : String
  pub label : ℕ
  pub count : ℕ
  pub is_current_month : Bool
  pub is_today : Bool
  pub is_selected : Bool
  pub is_weekend : Bool

-- A `Record<string, number>` in the order of its keys.
abbrev pub Counts : Type 0
Counts = List (String × ℕ)

unfoldable pub count_of : Counts → String → Option ℕ
count_of [] k = none
count_of ((j, n) ∷ rest) k = if str_eq j k then some n else count_of rest k

abbrev pub max : ℕ → ℕ → ℕ
max a b = if ltb a b then b else a

-- `weeks[weekIndex].days.push(dayCell)`, after the week is made where there is none.
abbrev pub push_day : {A : Type 0} → ℕ → A → List (List A) → List (List A)
push_day zero c [] = (c ∷ []) ∷ []
push_day (suc k) c [] = [] ∷ push_day k c []
push_day zero c (w ∷ ws) = (w ++ c ∷ []) ∷ ws
push_day (suc k) c (w ∷ ws) = w ∷ push_day k c ws

-- The loop over the days: so many are left from the index on.
abbrev pub fill_weeks : {A : Type 0} → (ℕ → A) → ℕ → ℕ → List (List A) → List (List A)
fill_weeks cell zero index ws = ws
fill_weeks cell (suc left) index ws =
    fill_weeks cell left (suc index) (push_day (index / 7) (cell index) ws)

-- The largest count that the loop has met.
abbrev pub max_from : (ℕ → ℕ) → ℕ → ℕ → ℕ → ℕ
max_from count zero index best = best
max_from count (suc left) index best = max_from count left (suc index) (max best (count index))

pub record CalendarMatrix : Type 0 where
  pub weeks : List (List CalendarDayCell)
  pub week_days : List String
  pub max_count : ℕ

pub record CalendarParams : Type 0 where
  pub month : String
  pub counts : Counts
  pub week_days : List String
  pub week_start_day_offset : ℕ
  pub today : String
  pub selected_date : String

module _ {Date : Type 0} (x : Dayjs Date) where
  open x use {
    day, iso_date, iso_month, parse_month, start_of_month, end_of_month, add_days, subtract_days,
    diff_days,
  }

  -- `createCalendarDayCell`
  unfoldable pub create_calendar_day_cell :
      Date → String → Counts → String → String → CalendarDayCell
  create_calendar_day_cell current month_key counts today selected_date = record {
    date = iso_date current;
    label = x.date current;
    count = nullish (count_of counts (iso_date current)) 0;
    is_current_month = str_eq (iso_month current) month_key;
    is_today = str_eq (iso_date current) today;
    is_selected = str_eq (iso_date current) selected_date;
    is_weekend = (day current == 0) || (day current == 6);
  }

  -- The two offsets of `calculateCalendarBoundaries`; an offset of the week's start is at most 7.
  abbrev pub start_offset : Date → ℕ → ℕ
  start_offset month_start o = (day month_start + 7 - o) % 7

  abbrev pub end_offset : Date → ℕ → ℕ
  end_offset month_end o = (o + 6 + 7 - day month_end) % 7

  -- `calculateCalendarBoundaries`: the first day of the grid, and how many days it has.
  unfoldable pub calculate_calendar_boundaries : Date → ℕ → Date × ℕ
  calculate_calendar_boundaries month_start o = (
    subtract_days month_start (start_offset month_start o),
    diff_days (add_days (end_of_month month_start) (end_offset (end_of_month month_start) o))
          (subtract_days month_start (start_offset month_start o))
        + 1,
  )

  abbrev pub cell_at : CalendarParams → ℕ → CalendarDayCell
  cell_at p index =
      let month_start = start_of_month (parse_month p.month) in
      create_calendar_day_cell
        (add_days (calculate_calendar_boundaries month_start p.week_start_day_offset).0 index)
        (iso_month month_start) p.counts p.today p.selected_date

  abbrev pub day_count : CalendarParams → ℕ
  day_count p =
      (calculate_calendar_boundaries (start_of_month (parse_month p.month))
        p.week_start_day_offset).1

  -- `useCalendarMatrix`
  unfoldable pub use_calendar_matrix : CalendarParams → CalendarMatrix
  use_calendar_matrix p = record {
    weeks = fill_weeks (cell_at p) (day_count p) 0 [];
    week_days =
        drop p.week_start_day_offset p.week_days ++ take p.week_start_day_offset p.week_days;
    max_count = max (max_from (λ i. (cell_at p i).count) (day_count p) 0 0) min_count;
  }
