-- ===== src/Filters/Condition/Sorting.antt =====
-- The order of a memo list.
use kube_memos_eks.Base.Sorting.{IsOrdered, sort-IsOrdered, filter-sort}
use kube_memos_eks.Filters.Condition.{Sortable, comes_before, list_sort}
use kube_memos_eks.Base.{
  length, filter, ◌≡◌, refl, Bool, true, false, List, [], ◌∷◌, arith, if◌then◌else◌, Bool-cases,
  All, ℕ, ◌<◌, ◌≤◌, ◌⊎◌, inl, inr, ◌&&◌,
}

-- The order has no cycles, and not coming before is transitive.
comes_before_trans :
    (p asc : Bool) (a b c : Sortable)
    → comes_before p asc b a ≡ false
    → comes_before p asc c b ≡ false
    → comes_before p asc c a ≡ false
unfolding comes_before
comes_before_trans p asc a b c h k = ground arith

comes_before_asymmetric :
    (p asc : Bool) (a b : Sortable) → comes_before p asc a b ≡ true → comes_before p asc b a ≡ false
unfolding comes_before
comes_before_asymmetric p asc a b h = ground arith

-- The order in words of its own: the group of a memo, which is first for a pinned one where pinned
-- memos go first, and, within a group, the time in the chosen direction.
abbrev pub group : Bool → Sortable → ℕ
group pinned_first m = if pinned_first && m.pinned then 0 else 1

abbrev pub InTime : Bool → ℕ → ℕ → Type 0
InTime true t u = t ≤ u
InTime false t u = u ≤ t

abbrev pub MayPrecede : Bool → Bool → Sortable → Sortable → Type 0
MayPrecede pinned_first asc a b =
    (group pinned_first a < group pinned_first b)
    ⊎ ((group pinned_first a ≡ group pinned_first b) × InTime asc a.unix b.unix)

comes_before-MayPrecede :
    (pinned_first asc : Bool) (a b : Sortable)
    → comes_before pinned_first asc b a ≡ false
    → MayPrecede pinned_first asc a b
unfolding comes_before
comes_before-MayPrecede false true a b h = inr (refl, ground arith)
comes_before-MayPrecede false false a b h = inr (refl, ground arith)
comes_before-MayPrecede true true a b h = elim (Bool-cases a.pinned) [
  | inl p ↦ elim (Bool-cases b.pinned) [
    | inl q ↦ inr (ground arith, ground arith)
    | inr q ↦ inl (ground arith)
  ]
  | inr p ↦ elim (Bool-cases b.pinned) [
    | inl q ↦ absurd (ground arith)
    | inr q ↦ inr (ground arith, ground arith)
  ]
]
comes_before-MayPrecede true false a b h = elim (Bool-cases a.pinned) [
  | inl p ↦ elim (Bool-cases b.pinned) [
    | inl q ↦ inr (ground arith, ground arith)
    | inr q ↦ inl (ground arith)
  ]
  | inr p ↦ elim (Bool-cases b.pinned) [
    | inl q ↦ absurd (ground arith)
    | inr q ↦ inr (ground arith, ground arith)
  ]
]

-- Every two memos of the list, the one in front first.
abbrev pub AllPairs : (Sortable → Sortable → Type 0) → List Sortable → Type 0
AllPairs R [] = Unit
AllPairs R (a ∷ rest) = All (R a) rest × AllPairs R rest

All-MayPrecede :
    (p asc : Bool) (a : Sortable) (ms : List Sortable)
    → All (λ b. comes_before p asc b a ≡ false) ms
    → All (MayPrecede p asc a) ms
All-MayPrecede p asc a [] hs = tt
All-MayPrecede p asc a (b ∷ ms) (h, hs) =
    (comes_before-MayPrecede p asc a b h, All-MayPrecede p asc a ms hs)

IsOrdered-AllPairs :
    (p asc : Bool) (ms : List Sortable)
    → IsOrdered (comes_before p asc) ms
    → AllPairs (MayPrecede p asc) ms
IsOrdered-AllPairs p asc [] h = tt
IsOrdered-AllPairs p asc (a ∷ ms) (h, hs) =
    (All-MayPrecede p asc a ms h, IsOrdered-AllPairs p asc ms hs)

-- A listed memo list is in order: where pinned memos go first, every pinned memo stands in front of
-- every other one, and memos of one group stand by their times, rising or falling as was chosen. It
-- holds the memos of the wanted state, each as often as it was given: of every kind of memo there
-- are as many as before.
pub list_sort-IsOrdered :
    (pinned_first asc : Bool) (memos : List Sortable) (kind : Sortable → Bool)
    → AllPairs (MayPrecede pinned_first asc) (list_sort pinned_first asc memos)
      × (length (filter kind (list_sort pinned_first asc memos))
          ≡ length (filter kind (filter (λ m. m.is_listed) memos)))
unfolding list_sort
list_sort-IsOrdered pinned_first asc memos kind = (
  IsOrdered-AllPairs pinned_first asc (list_sort pinned_first asc memos) (
      sort-IsOrdered (comes_before pinned_first asc) (comes_before_asymmetric pinned_first asc)
        (comes_before_trans pinned_first asc) (filter (λ m. m.is_listed) memos)),
  filter-sort (comes_before pinned_first asc) kind (filter (λ m. m.is_listed) memos),
)
