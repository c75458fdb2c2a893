-- ===== src/View/Calendar/Levels.antt =====
-- The colour of a day in the activity calendar, and the largest count that it is measured by
-- (components/ActivityCalendar/utils.ts).
use kube_memos_eks.View.Calendar.{
  Dayjs, CalendarParams, CalendarDayCell, Counts, max, max_from, min_count, use_calendar_matrix,
  cell_at, day_count,
}
use kube_memos_eks.Base.{
  ltb, ◌==◌, if◌then◌else◌, ==_iff, Bool-cases, All, ℕ, zero, suc, ◌+◌, ◌*◌, ◌≤◌, ◌<◌, ◌≡◌, ap, inl,
  inr, not, ◌&&◌, ◌||◌, [], ◌∷◌, arith,
}

-- The keys of `CELL_STYLES`; their values are class names.
pub data CellStyle : Type 0 where
  high medium low minimal empty : CellStyle

-- `count / maxCount` is compared with 0.75, 0.5 and 0.25.
unfoldable pub get_cell_intensity_class : CalendarDayCell → ℕ → CellStyle
get_cell_intensity_class d max_count =
    if not d.is_current_month || (d.count == 0)
    then empty
    else if ltb (3 * max_count) (4 * d.count)
    then high
    else if ltb (2 * max_count) (4 * d.count)
    then medium
    else if ltb max_count (4 * d.count)
    then low
    else minimal

abbrev max_of : ℕ → Counts → ℕ
max_of best [] = best
max_of best ((_, n) ∷ rest) = max_of (max best n) rest

unfoldable pub calculate_year_max_count : Counts → ℕ
calculate_year_max_count counts = max (max_of 0 counts) min_count

abbrev pub rank : CellStyle → ℕ
rank empty = 0
rank minimal = 1
rank low = 2
rank medium = 3
rank high = 4

-- A day is shown empty exactly when it is outside of the month or has no memos; of two days of the
-- month the one with more memos is never the paler one, and a day with the largest count has the
-- strongest colour.
pub get_cell_intensity_class_monotone :
    (a b : CalendarDayCell) (max_count : ℕ)
    → a.is_current_month ≡ b.is_current_month
    → a.count ≤ b.count
    → b.count ≤ max_count
    → (rank (get_cell_intensity_class a max_count) ≤ rank (get_cell_intensity_class b max_count))
      × ((rank (get_cell_intensity_class a max_count) == 0)
          ≡ (not a.is_current_month || (a.count == 0)))
      × ((rank (get_cell_intensity_class b b.count) == 4) ≡ (b.is_current_month && ltb 0 b.count))
unfolding get_cell_intensity_class
get_cell_intensity_class_monotone a b m e l h = (ground arith, ground arith, ground arith)

max_from-keeps : (count : ℕ → ℕ) (left i best : ℕ) → best ≤ max_from count left i best
max_from-keeps count zero i best = omega arith
max_from-keeps count (suc left) i best =
    let rest = max_from-keeps count left (suc i) (max best (count i)) in ground arith

max_from-bound :
    (count : ℕ → ℕ) (left i best k : ℕ)
    → i ≤ k
    → k < i + left
    → count k ≤ max_from count left i best
max_from-bound count zero i best k l h = absurd (omega arith)
max_from-bound count (suc left) i best k l h = elim (Bool-cases (i == k)) [
  | inl e ↦
      let here = max_from-keeps count left (suc i) (max best (count i)) in
      let same = ap count ((==_iff i k).0 e) in ground arith
  | inr e ↦ max_from-bound count left (suc i) (max best (count i)) k (ground arith) (omega arith)
]

max_of-keeps : (best : ℕ) (counts : Counts) → best ≤ max_of best counts
max_of-keeps best [] = omega arith
max_of-keeps best ((_, n) ∷ rest) = ground (arith, max_of-keeps (max best n) rest)

max_of-bound : (best : ℕ) (counts : Counts) → All (λ c. c.1 ≤ max_of best counts) counts
max_of-bound best [] = tt
max_of-bound best ((_, n) ∷ rest) =
    (ground (arith, max_of-keeps (max best n) rest), max_of-bound (max best n) rest)

All-below :
    (m n : ℕ) (counts : Counts) → m ≤ n → All (λ c. c.1 ≤ m) counts → All (λ c. c.1 ≤ n) counts
All-below m n [] l a = tt
All-below m n (c ∷ rest) l (h, a) = (omega arith, All-below m n rest l a)

-- No count of a year is above the year's largest count, which is at least 1, and no day that is
-- shown in a month's grid has a count above the largest of the grid, which is at least 1.
pub max_count_bounds :
    {Date : Type 0} (x : Dayjs Date) (p : CalendarParams) (i : ℕ)
    → i < day_count x p
    → All (λ c. c.1 ≤ calculate_year_max_count p.counts) p.counts
      × (1 ≤ calculate_year_max_count p.counts)
      × ((cell_at x p i).count ≤ (use_calendar_matrix x p).max_count)
      × (1 ≤ (use_calendar_matrix x p).max_count)
unfolding calculate_year_max_count use_calendar_matrix
max_count_bounds x p i l =
    let grid =
      max_from-bound (λ k. (cell_at x p k).count) (day_count x p) 0 0 i (omega arith)
        (omega arith) in
    (
      All-below _ _ p.counts (ground arith) (max_of-bound 0 p.counts),
      ground arith,
      ground arith,
      ground arith,
    )
