-- ===== src/View/Calendar/Weeks.antt =====
-- The grid of a month: full weeks that start on the chosen day and cover the month, with less than a
-- week before it and after it.
use mathlib.Core.List.{append_assoc, append-nil}
use kube_memos_eks.View.Calendar.{
  push_day, fill_weeks, Dayjs, CalendarParams, start_offset, end_offset,
  calculate_calendar_boundaries, cell_at, day_count, use_calendar_matrix, CalendarDayCell, count_of,
  create_calendar_day_cell,
}
use kube_memos_eks.Base.{
  length, last, ℕ, zero, suc, ◌+◌, ◌-◌, ◌*◌, ◌/◌, ◌%◌, ◌≤◌, ◌<◌, ◌≡◌, refl, sym, ap, ◌∙◌, List, [],
  ◌∷◌, ◌++◌, arith, length-append, ◌==◌, ◌||◌, nullish, str_eq,
}

-- The cells of so many days from an index on, and so many weeks of them from a week on.
abbrev pub cells_from : {A : Type 0} → (ℕ → A) → ℕ → ℕ → List A
cells_from cell i zero = []
cells_from cell i (suc n) = cell i ∷ cells_from cell (suc i) n

abbrev pub weeks_from : {A : Type 0} → (ℕ → A) → ℕ → ℕ → List (List A)
weeks_from cell w zero = []
weeks_from cell w (suc n) = cells_from cell (7 * w) 7 ∷ weeks_from cell (suc w) n

module _ {A : Type 0} {f g : ℕ → A} where
  cells_from-ext : (i n : ℕ) → ((k : ℕ) → f k ≡ g k) → cells_from f i n ≡ cells_from g i n
  cells_from-ext i zero e = refl
  cells_from-ext i (suc n) e =
      ap (◌∷ cells_from f (suc i) n) (e i) ∙ ap (g i ∷◌) (cells_from-ext (suc i) n e)

  weeks_from-ext : (w n : ℕ) → ((k : ℕ) → f k ≡ g k) → weeks_from f w n ≡ weeks_from g w n
  weeks_from-ext w zero e = refl
  weeks_from-ext w (suc n) e =
      ap (◌∷ weeks_from f (suc w) n) (cells_from-ext (7 * w) 7 e)
      ∙ ap (cells_from g (7 * w) 7 ∷◌) (weeks_from-ext (suc w) n e)

same_week : (i w : ℕ) → 7 * w ≤ i → i < 7 * w + 7 → i / 7 ≡ w
same_week i w l h = omega arith

module _ {A : Type 0} where
  push_day-last : (c : A) (ws : List (List A)) → push_day (length ws) c ws ≡ ws ++ (c ∷ []) ∷ []
  push_day-last c [] = refl
  push_day-last c (w ∷ ws) = ap (w ∷◌) (push_day-last c ws)

  push_day-open :
      (c : A) (row : List A) (ws : List (List A))
      → push_day (length ws) c (ws ++ row ∷ []) ≡ ws ++ (row ++ c ∷ []) ∷ []
  push_day-open c row [] = refl
  push_day-open c row (w ∷ ws) = ap (w ∷◌) (push_day-open c row ws)

  -- The rest of a week that is open.
  fill_open :
      (cell : ℕ → A) (left i : ℕ) (row : List A) (ws : List (List A))
      → 7 * length ws ≤ i
      → i + left ≤ 7 * length ws + 7
      → fill_weeks cell left i (ws ++ row ∷ []) ≡ ws ++ (row ++ cells_from cell i left) ∷ []
  fill_open cell zero i row ws l h = ap (λ r. ws ++ r ∷ []) (sym (append-nil row))
  fill_open cell (suc left) i row ws l h =
      ap (λ k. fill_weeks cell left (suc i) (push_day k (cell i) (ws ++ row ∷ [])))
        (same_week i (length ws) l (omega arith))
      ∙ ap (fill_weeks cell left (suc i)) (push_day-open (cell i) row ws)
      ∙ fill_open cell left (suc i) (row ++ cell i ∷ []) ws (omega arith) (omega arith)
      ∙ ap (λ r. ws ++ r ∷ []) (append_assoc row (cell i ∷ []) (cells_from cell (suc i) left))

  fill_week :
      (cell : ℕ → A) (i : ℕ) (ws : List (List A))
      → i ≡ 7 * length ws
      → fill_weeks cell 7 i ws ≡ ws ++ cells_from cell i 7 ∷ []
  fill_week cell i ws e =
      ap (λ k. fill_weeks cell 6 (suc i) (push_day k (cell i) ws))
        (same_week i (length ws) (omega arith) (omega arith))
      ∙ ap (fill_weeks cell 6 (suc i)) (push_day-last (cell i) ws)
      ∙ fill_open cell 6 (suc i) (cell i ∷ []) ws (omega arith) (omega arith)

  fill_weeks-same :
      (cell : ℕ → A) (m n i j : ℕ) (ws : List (List A))
      → m ≡ n
      → i ≡ j
      → fill_weeks cell m i ws ≡ fill_weeks cell n j ws
  fill_weeks-same cell m n i j ws p q =
      ap (λ k. fill_weeks cell k i ws) p ∙ ap (λ k. fill_weeks cell n k ws) q

  fill_weeks-add :
      (cell : ℕ → A) (a b i : ℕ) (ws : List (List A))
      → fill_weeks cell (a + b) i ws ≡ fill_weeks cell b (i + a) (fill_weeks cell a i ws)
  fill_weeks-add cell zero b i ws =
      fill_weeks-same cell (0 + b) b i (i + 0) ws (omega arith) (omega arith)
  fill_weeks-add cell (suc a) b i ws =
      fill_weeks-same cell (suc a + b) (suc (a + b)) i i ws (omega arith) refl
      ∙ fill_weeks-add cell a b (suc i) (push_day (i / 7) (cell i) ws)
      ∙ fill_weeks-same cell b b (suc i + a) (i + suc a) (fill_weeks cell (suc a) i ws) refl
          (omega arith)

  -- The loop over the days of full weeks makes these weeks.
  fill_weeks_lem :
      (cell : ℕ → A) (n i w count : ℕ) (ws : List (List A))
      → count ≡ 7 * n
      → i ≡ 7 * length ws
      → w ≡ length ws
      → fill_weeks cell count i ws ≡ ws ++ weeks_from cell w n
  fill_weeks_lem cell zero i w count ws c e l =
      fill_weeks-same cell count 0 i i ws (omega arith) refl ∙ sym (append-nil ws)
  fill_weeks_lem cell (suc n) i w count ws c e l =
      fill_weeks-same cell count (7 + 7 * n) i i ws (omega arith) refl
      ∙ fill_weeks-add cell 7 (7 * n) i ws
      ∙ ap (fill_weeks cell (7 * n) (i + 7)) (fill_week cell i ws e)
      ∙ fill_weeks_lem cell n (i + 7) (suc w) (7 * n) (ws ++ cells_from cell i 7 ∷ []) refl
          (omega (arith, length-append ws (cells_from cell i 7 ∷ [])))
          (omega (arith, length-append ws (cells_from cell i 7 ∷ [])))
      ∙ append_assoc ws (cells_from cell i 7 ∷ []) (weeks_from cell (suc w) n)
      ∙ ap (λ k. ws ++ cells_from cell k 7 ∷ weeks_from cell (suc w) n) (start e l)
    where
      start : i ≡ 7 * length ws → w ≡ length ws → i ≡ 7 * w
      start p q = omega arith

-- The arithmetic of the grid: the offsets fill the first and the last week up.
grid_full :
    (start_day end_day o last : ℕ)
    → start_day < 7
    → o < 7
    → end_day ≡ (start_day + last) % 7
    → (start_day + 7 - o) % 7 + last + (o + 6 + 7 - end_day) % 7 + 1
      ≡ 7 * (((start_day + 7 - o) % 7 + last + (o + 6 + 7 - end_day) % 7 + 1) / 7)
grid_full start_day end_day o last h l e = omega arith

first_day :
    (d start_day o : ℕ)
    → d < 7
    → start_day < 7
    → o < 7
    → (d + (start_day + 7 - o) % 7) % 7 ≡ start_day
    → d ≡ o
first_day d start_day o h k l e = omega arith

module _ {Date : Type 0} (x : Dayjs Date) where
  open x use {
    day, parse_month, start_of_month, end_of_month, diff_days, add_days, subtract_days, iso_date,
    iso_month,
  }

  -- The first day of the month that is shown, and the number of its days less one.
  abbrev pub month_start : CalendarParams → Date
  month_start p = start_of_month (parse_month p.month)

  abbrev pub last_index : CalendarParams → ℕ
  last_index p = diff_days (end_of_month (month_start p)) (month_start p)

  abbrev pub grid_start : CalendarParams → Date
  grid_start p = (calculate_calendar_boundaries x (month_start p) p.week_start_day_offset).0

  abbrev pub before : CalendarParams → ℕ
  before p = start_offset x (month_start p) p.week_start_day_offset

  abbrev pub after_month : CalendarParams → ℕ
  after_month p = end_offset x (end_of_month (month_start p)) p.week_start_day_offset

  day_count_lem : (p : CalendarParams) → day_count x p ≡ before p + last_index p + after_month p + 1
  unfolding calculate_calendar_boundaries
  day_count_lem p =
      ap (λ n. n + 1) (x.diff_days-widened (parse_month p.month) (after_month p) (before p))

  grid_start-day :
      (p : CalendarParams)
      → p.week_start_day_offset < 7
      → day (grid_start p) ≡ p.week_start_day_offset
  unfolding calculate_calendar_boundaries
  grid_start-day p l =
      first_day (day (grid_start p)) (day (month_start p)) p.week_start_day_offset
        (x.day_bound (grid_start p)) (x.day_bound (month_start p)) l
        (x.day-subtract_days (month_start p) (before p))

  -- The day of the grid that is so many days behind its first one, which is so many days before the
  -- month as the month's first day is behind the start of its week.
  abbrev pub grid_day : CalendarParams → ℕ → Date
  grid_day p i =
      add_days
        (subtract_days (month_start p) ((day (month_start p) + 7 - p.week_start_day_offset) % 7)) i

  -- What a cell of the grid shows of its day.
  abbrev pub grid_cell : CalendarParams → ℕ → CalendarDayCell
  grid_cell p i = record {
    date = iso_date (grid_day p i);
    label = x.date (grid_day p i);
    count = nullish (count_of p.counts (iso_date (grid_day p i))) 0;
    is_current_month = str_eq (iso_month (grid_day p i)) (iso_month (month_start p));
    is_today = str_eq (iso_date (grid_day p i)) p.today;
    is_selected = str_eq (iso_date (grid_day p i)) p.selected_date;
    is_weekend =
        ((p.week_start_day_offset + i) % 7 == 0) || ((p.week_start_day_offset + i) % 7 == 6);
  }

  grid_cell-cell_at :
      (p : CalendarParams) → p.week_start_day_offset < 7 → (i : ℕ) → cell_at x p i ≡ grid_cell p i
  unfolding create_calendar_day_cell calculate_calendar_boundaries
  grid_cell-cell_at p l i =
      ap (λ w. record (grid_cell p i) { is_weekend = (w == 0) || (w == 6) })
        (x.day-add_days (grid_start p) i ∙ ap (λ d. (d + i) % 7) (grid_start-day p l))

  -- With a week that starts on one of the seven days, the grid of a month is full weeks, whose cells
  -- show one day after the other, from less than a week before the month to less than a week behind
  -- it. The cells' weekdays go on by one from the day on which weeks start.
  pub use_calendar_matrix_aligned :
      (p : CalendarParams)
      → p.week_start_day_offset < 7
      → (n : ℕ) × ((use_calendar_matrix x p).weeks ≡ weeks_from (grid_cell p) 0 n)
        × (7 * n ≡ before p + (last_index p + 1) + after_month p)
        × (before p < 7)
        × (after_month p < 7)
  unfolding use_calendar_matrix
  use_calendar_matrix_aligned p l =
      let m = month_start p in
      let e =
        grid_full (day m) (day (end_of_month m)) p.week_start_day_offset (last_index p)
          (x.day_bound m) l (x.day-end_of_month (parse_month p.month)) in
      let c = day_count_lem p in
      (
        (before p + last_index p + after_month p + 1) / 7,
        fill_weeks_lem (cell_at x p) _ 0 0 (day_count x p) [] (c ∙ e) refl refl
            ∙ weeks_from-ext 0 _ (grid_cell-cell_at p l),
        omega (arith, e),
        omega arith,
        omega arith,
      )
