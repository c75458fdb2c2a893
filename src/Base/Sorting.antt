-- ===== src/Base/Sorting.antt =====
-- A stable sort of a list by a strict order, as `Array.prototype.sort` has it, and what it gives.
use mathlib.Core.Path.{◌≡◌, refl, sym, ap, subst}
use mathlib.Core.Logic.{inl, inr}
use mathlib.Core.Bool.{Bool, true, false}
use mathlib.Core.List.{List, [], ◌∷◌}
use native.Mathlib.Omega.{arith}
use kube_memos_eks.Base.Tests.{if◌then◌else◌, Bool-cases}
use kube_memos_eks.Base.Lists.{length, filter, All}

module _ {A : Type 0} (before : A → A → Bool) where
  -- An element goes behind those that it does not come before.
  abbrev pub insert : A → List A → List A
  insert a [] = a ∷ []
  insert a (b ∷ bs) = if before b a then b ∷ insert a bs else a ∷ b ∷ bs

  abbrev pub sort : List A → List A
  sort [] = []
  sort (a ∷ rest) = insert a (sort rest)

  -- No element comes before one that it stands behind.
  abbrev pub IsOrdered : List A → Type 0
  IsOrdered [] = Unit
  IsOrdered (a ∷ rest) = All (λ b. before b a ≡ false) rest × IsOrdered rest

  pub All-insert : (P : A → Type 0) (a : A) (xs : List A) → P a → All P xs → All P (insert a xs)
  All-insert P a [] h hs = (h, tt)
  All-insert P a (b ∷ bs) h (k, ks) = elim (Bool-cases (before b a)) [
    | inl e ↦
        subst (All P) (sym (ap (λ t. if t then b ∷ insert a bs else a ∷ b ∷ bs) e))
          (k, All-insert P a bs h ks)
    | inr e ↦
        subst (All P) (sym (ap (λ t. if t then b ∷ insert a bs else a ∷ b ∷ bs) e)) (h, (k, ks))
  ]

  filter-insert :
      (q : A → Bool) (a : A) (xs : List A)
      → length (filter q (insert a xs)) ≡ length (filter q (a ∷ xs))
  filter-insert q a [] = refl
  filter-insert q a (b ∷ bs) = ground (arith, filter-insert q a bs)

  -- Of every kind of element there are as many as before.
  pub filter-sort :
      (q : A → Bool) (xs : List A) → length (filter q (sort xs)) ≡ length (filter q xs)
  filter-sort q [] = refl
  filter-sort q (a ∷ xs) = ground (arith, filter-sort q xs, filter-insert q a (sort xs))

  -- For an order without cycles for which not coming before is transitive.
  module _ (asymmetric : (a b : A) → before a b ≡ true → before b a ≡ false)
      (transitive : (a b c : A)
        → before b a ≡ false
        → before c b ≡ false
        → before c a ≡ false) where
    All-trans :
        (a b : A) (xs : List A)
        → before b a ≡ false
        → All (λ c. before c b ≡ false) xs
        → All (λ c. before c a ≡ false) xs
    All-trans a b [] h hs = tt
    All-trans a b (c ∷ cs) h (k, ks) = (transitive a b c h k, All-trans a b cs h ks)

    insert-IsOrdered : (a : A) (xs : List A) → IsOrdered xs → IsOrdered (insert a xs)
    insert-IsOrdered a [] h = (tt, tt)
    insert-IsOrdered a (b ∷ bs) (h, hs) = elim (Bool-cases (before b a)) [
      | inl e ↦
          subst IsOrdered (sym (ap (λ t. if t then b ∷ insert a bs else a ∷ b ∷ bs) e)) (
            All-insert (λ c. before c b ≡ false) a bs (asymmetric b a e) h,
            insert-IsOrdered a bs hs,
          )
      | inr e ↦
          subst IsOrdered (sym (ap (λ t. if t then b ∷ insert a bs else a ∷ b ∷ bs) e))
            ((e, All-trans a b bs e h), (h, hs))
    ]

    pub sort-IsOrdered : (xs : List A) → IsOrdered (sort xs)
    sort-IsOrdered [] = tt
    sort-IsOrdered (a ∷ xs) = insert-IsOrdered a (sort xs) (sort-IsOrdered xs)
