-- ===== src/View/Masonry/Layout/Runs.antt =====
-- What the masonry view shows in a run of events.
use mathlib.Core.Path.{subst}
use kube_memos_eks.View.Masonry.Columns.{bit, placed, distribute_items_to_columns_partition}
use kube_memos_eks.View.Masonry.Layout.{
  HeightMap, Timer, Layout, calculate_columns, distributed, redistribute_memos, change_memos,
  handle_resize, same_height, set_distribution, fire, handle_height_change, run_timer, mounted,
  set_height, initial_layout,
}
use kube_memos_eks.Base.{
  ltb, ◌==◌, Bool-cases, length, ℕ, zero, suc, ◌≤◌, String, ◌≡◌, refl, sym, ap, ◌∙◌, inl, inr, Bool,
  false, Option, none, some, List, arith,
}

-- There are as many columns as are shown, and the memo with that index stands in one of them, once.
abbrev pub ShowsAt : ℕ → List String → ℕ → List (List ℕ) → Type 0
ShowsAt i memos columns d = (length d ≡ columns) × (placed i d ≡ bit (ltb i (length memos)))

one_or_more : (n : ℕ) → 1 ≤ n → (k : ℕ) × (suc k ≡ n)
one_or_more zero h = absurd (omega arith)
one_or_more (suc n) h = (n, refl)

distributed-ShowsAt :
    (i : ℕ) (heights : HeightMap) (memos : List String) (columns prefix : ℕ) (old : List (List ℕ))
    → 1 ≤ columns
    → ShowsAt i memos columns (distributed heights memos columns prefix old)
distributed-ShowsAt i heights memos columns prefix old h =
    let (k, e) = one_or_more columns h in
    subst (λ c. ShowsAt i memos c (distributed heights memos c prefix old)) e (at k)
  where
    at : (k : ℕ) → ShowsAt i memos (suc k) (distributed heights memos (suc k) prefix old)
    at k =
        let (r, e, l, p) =
          distribute_items_to_columns_partition (record { height_of = heights }) memos k prefix i in
        subst (λ o. ShowsAt i memos (suc k) (set_distribution old o)) (sym e) (l, p)

calculate_columns-bound :
    (list_mode : Bool) (width : Option ℕ) → 1 ≤ calculate_columns list_mode width
unfolding calculate_columns
calculate_columns-bound list_mode none = omega arith
calculate_columns-bound list_mode (some width) = ground arith

-- The timer that is pending was made for the memos and the columns that are shown.
abbrev pub IsFreshTimer : Layout → Option Timer → Type 0
IsFreshTimer l none = Unit
IsFreshTimer l (some t) = (t.memos ≡ l.memos) × (t.columns ≡ l.columns)

abbrev pub IsFresh : Layout → Type 0
IsFresh l = IsFreshTimer l l.timer

pub data Step (prefix : ℕ) : Layout → Layout → Type 0 where
  changes : (memos : List String) (l : Layout) → Step prefix l (change_memos prefix memos l)
  resizes :
      (list_mode : Bool) (width : Option ℕ) (l : Layout)
      → Step prefix l (handle_resize prefix list_mode width l)
  measures :
      (name : String) (height : ℕ) (l : Layout) → Step prefix l (handle_height_change name height l)
  fires : (l : Layout) → IsFresh l → Step prefix l (run_timer prefix l)

pub data Reach (prefix : ℕ) : Layout → Type 0 where
  here : (memos : List String) → Reach prefix (mounted prefix memos)
  next : {l m : Layout} → Reach prefix l → Step prefix l m → Reach prefix m

module _ (i prefix : ℕ) where
  abbrev Shown : Layout → Type 0
  Shown l = (1 ≤ l.columns) × ShowsAt i l.memos l.columns l.distribution

  redistribute_memos-Shown : (l : Layout) → 1 ≤ l.columns → Shown (redistribute_memos prefix l)
  unfolding redistribute_memos
  redistribute_memos-Shown l h =
      (h, distributed-ShowsAt i l.item_heights l.memos l.columns prefix l.distribution h)

  handle_resize-Shown :
      (list_mode : Bool) (width : Option ℕ) (l : Layout)
      → Shown l
      → Shown (handle_resize prefix list_mode width l)
  unfolding handle_resize
  handle_resize-Shown list_mode none l s = s
  handle_resize-Shown list_mode (some width) l s =
      elim (Bool-cases (calculate_columns list_mode (some width) == l.columns)) [
        | inl e ↦ rw e s
        | inr e ↦ rw e (
            redistribute_memos-Shown
              (record l { columns = calculate_columns list_mode (some width) })
              (calculate_columns-bound list_mode (some width)))
      ]

  handle_height_change-Shown :
      (name : String) (height : ℕ) (l : Layout)
      → Shown l
      → Shown (handle_height_change name height l)
  unfolding handle_height_change
  handle_height_change-Shown name height l s =
      elim (Bool-cases (same_height (l.item_heights name) height)) [
        | inl e ↦ rw e s
        | inr e ↦ rw e s
      ]

  run_timer-Shown : (l : Layout) → IsFresh l → Shown l → Shown (run_timer prefix l)
  unfolding run_timer
  run_timer-Shown l f s = fired l.timer f
    where
      fired : (o : Option Timer) → IsFreshTimer l o → Shown (fire prefix o l)
      fired none f = s
      fired (some t) (m, c) = (
        s.0,
        subst
            (λ n.
              ShowsAt i l.memos n (distributed t.heights t.memos t.columns prefix l.distribution))
            c
            (subst
              (λ ms.
                ShowsAt i ms t.columns
                  (distributed t.heights t.memos t.columns prefix l.distribution))
              m
              (distributed-ShowsAt i t.heights t.memos t.columns prefix l.distribution
                (subst (λ n. 1 ≤ n) (sym c) s.0))),
      )

  Step-Shown : {l m : Layout} → Step prefix l m → Shown l → Shown m
  unfolding change_memos
  Step-Shown (changes memos l) s = redistribute_memos-Shown (record l { memos = memos }) s.0
  Step-Shown (resizes list_mode width l) s = handle_resize-Shown list_mode width l s
  Step-Shown (measures name height l) s = handle_height_change-Shown name height l s
  Step-Shown (fires l f) s = run_timer-Shown l f s

  -- In every run of new lists, resizes, measured heights, and timers that fire for the memos and the
  -- columns that are shown, there is a column or more, the distribution has as many as are shown, and
  -- each memo of the list stands in exactly one of them, once.
  pub layout_shows_all :
      (l : Layout) → Reach prefix l → (1 ≤ l.columns) × ShowsAt i l.memos l.columns l.distribution
  unfolding mounted
  layout_shows_all _ (here memos) = redistribute_memos-Shown (initial_layout memos) (omega arith)
  layout_shows_all _ (next {l} r st) = Step-Shown st (layout_shows_all l r)

timer_of_height_change :
    (name : String) (height : ℕ) (l : Layout)
    → same_height (l.item_heights name) height ≡ false
    → (handle_height_change name height l).timer
      ≡ some (record {
        memos = l.memos;
        columns = l.columns;
        heights = set_height name height l.item_heights;
      })
unfolding handle_height_change
timer_of_height_change name height l h = rw h refl

-- When a height is measured anew, then the list of memos grows, and then the timer fires, the memos
-- that were not in the old list stand in no column: the timer distributes the list that it was made
-- for.
pub run_timer_stale :
    (prefix i height : ℕ) (name : String) (memos : List String) (l : Layout)
    → 1 ≤ l.columns
    → same_height (l.item_heights name) height ≡ false
    → length l.memos ≤ i
    → placed i
        (run_timer prefix
          (change_memos prefix memos (handle_height_change name height l))).distribution
      ≡ 0
unfolding run_timer change_memos redistribute_memos
run_timer_stale prefix i height name memos l c h g =
    let changed = change_memos prefix memos (handle_height_change name height l) in
    ap (λ o. placed i (fire prefix o changed).distribution) (timer_of_height_change name height l h)
    ∙ (distributed-ShowsAt i (set_height name height l.item_heights) l.memos l.columns prefix
        changed.distribution c).1
    ∙ beyond i (length l.memos) g
  where
    beyond : (i n : ℕ) → n ≤ i → bit (ltb i n) ≡ 0
    beyond i n l = ground arith
