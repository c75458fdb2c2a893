-- ===== src/View/Masonry/Shortest.antt =====
-- The column that each memo goes to is a shortest one.
use mathlib.Core.Path.{subst}
use kube_memos_eks.View.Masonry.{Column, is_better, shortest_from, find_shortest_column_index}
use kube_memos_eks.Base.{
  if◌then◌else◌, Bool-cases, get_elem?, All, ℕ, suc, ◌+◌, ◌≤◌, ◌≡◌, refl, sym, ap, ◌∙◌, ◌⊎◌, inl,
  inr, true, false, some, List, [], ◌∷◌, arith,
}

-- The column that the loop holds at its end.
abbrev chosen_from : List Column → Column → Column
chosen_from [] best = best
chosen_from (c ∷ cs) best = if is_better c best then chosen_from cs c else chosen_from cs best

shortest_from-cases :
    (cs : List Column) (i m : ℕ) (best : Column)
    → ((shortest_from cs i m best ≡ m) × (chosen_from cs best ≡ best))
      ⊎ ((k : ℕ) × (shortest_from cs i m best ≡ i + k)
          × (get_elem? cs k ≡ some (chosen_from cs best)))
shortest_from-cases [] i m best = inl (refl, refl)
shortest_from-cases (c ∷ cs) i m best = elim (Bool-cases (is_better c best)) [
  | inl b ↦ rw b (here (shortest_from-cases cs (suc i) i c))
  | inr b ↦ rw b (there (shortest_from-cases cs (suc i) m best))
]
  where
    here :
        ((shortest_from cs (suc i) i c ≡ i) × (chosen_from cs c ≡ c))
          ⊎ ((k : ℕ) × (shortest_from cs (suc i) i c ≡ suc i + k)
              × (get_elem? cs k ≡ some (chosen_from cs c)))
        → ((shortest_from cs (suc i) i c ≡ m) × (chosen_from cs c ≡ best))
          ⊎ ((k : ℕ) × (shortest_from cs (suc i) i c ≡ i + k)
              × (get_elem? (c ∷ cs) k ≡ some (chosen_from cs c)))
    here (inl (e, h)) = inr (0, omega arith, ap some (sym h))
    here (inr (k, e, h)) = inr (suc k, omega arith, h)

    there :
        ((shortest_from cs (suc i) m best ≡ m) × (chosen_from cs best ≡ best))
          ⊎ ((k : ℕ) × (shortest_from cs (suc i) m best ≡ suc i + k)
              × (get_elem? cs k ≡ some (chosen_from cs best)))
        → ((shortest_from cs (suc i) m best ≡ m) × (chosen_from cs best ≡ best))
          ⊎ ((k : ℕ) × (shortest_from cs (suc i) m best ≡ i + k)
              × (get_elem? (c ∷ cs) k ≡ some (chosen_from cs best)))
    there (inl h) = inl h
    there (inr (k, e, h)) = inr (suc k, omega arith, h)

-- No column is shorter than the one that is held, and none as short has fewer memos.
abbrev pub NotAbove : Column → Column → Type 0
NotAbove b c = (b.height ≤ c.height) × (b.height ≡ c.height → b.count ≤ c.count)

NotAbove-refl : (b : Column) → NotAbove b b
NotAbove-refl b = (omega arith, λ e. omega arith)

NotAbove-better : (c best : Column) → is_better c best ≡ true → NotAbove c best
NotAbove-better c best h = (ground arith, λ e. ground arith)

NotAbove-not_better : (c best : Column) → is_better c best ≡ false → NotAbove best c
NotAbove-not_better c best h = (ground arith, λ e. ground arith)

NotAbove-trans : (a b c : Column) → NotAbove a b → NotAbove b c → NotAbove a c
NotAbove-trans a b c (h, hs) (k, ks) =
    (omega arith, λ e. omega (arith, hs (omega arith), ks (omega arith)))

chosen_from-NotAbove :
    (cs : List Column) (best : Column)
    → NotAbove (chosen_from cs best) best × All (NotAbove (chosen_from cs best)) cs
chosen_from-NotAbove [] best = (NotAbove-refl best, tt)
chosen_from-NotAbove (c ∷ cs) best = elim (Bool-cases (is_better c best)) [
  | inl b ↦
      subst Least (sym (ap (λ x. if x then chosen_from cs c else chosen_from cs best) b))
        (keep (chosen_from cs c) (chosen_from-NotAbove cs c) (NotAbove-better c best b))
  | inr b ↦
      subst Least (sym (ap (λ x. if x then chosen_from cs c else chosen_from cs best) b))
        (skip (chosen_from cs best) (chosen_from-NotAbove cs best) (NotAbove-not_better c best b))
]
  where
    Least : Column → Type 0
    Least b = NotAbove b best × (NotAbove b c × All (NotAbove b) cs)

    keep :
        (b : Column)
        → NotAbove b c × All (NotAbove b) cs
        → NotAbove c best
        → NotAbove b best × (NotAbove b c × All (NotAbove b) cs)
    keep b (h, hs) n = (NotAbove-trans b c best h n, (h, hs))

    skip :
        (b : Column)
        → NotAbove b best × All (NotAbove b) cs
        → NotAbove best c
        → NotAbove b best × (NotAbove b c × All (NotAbove b) cs)
    skip b (h, hs) n = (h, (NotAbove-trans b best c h n, hs))

one_add : (k : ℕ) → 1 + k ≡ suc k
one_add k = omega arith

-- The column at the index that is found is the lowest, and of the lowest one with the fewest memos.
pub find_shortest_column_index_minimal :
    (c : Column) (cs : List Column)
    → (b : Column) × (get_elem? (c ∷ cs) (find_shortest_column_index (c ∷ cs)) ≡ some b)
      × All (NotAbove b) (c ∷ cs)
unfolding find_shortest_column_index
find_shortest_column_index_minimal c cs =
    (chosen_from cs c, at (shortest_from-cases cs 1 0 c), chosen_from-NotAbove cs c)
  where
    at :
        ((shortest_from cs 1 0 c ≡ 0) × (chosen_from cs c ≡ c))
          ⊎ ((k : ℕ) × (shortest_from cs 1 0 c ≡ 1 + k)
              × (get_elem? cs k ≡ some (chosen_from cs c)))
        → get_elem? (c ∷ cs) (shortest_from cs 1 0 c) ≡ some (chosen_from cs c)
    at (inl (e, h)) = rw (e, h)
    at (inr (k, e, h)) = ap (get_elem? (c ∷ cs)) (e ∙ one_add k) ∙ h
