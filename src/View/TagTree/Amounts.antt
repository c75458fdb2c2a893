-- ===== src/View/TagTree/Amounts.antt =====
-- The amount that each tag shows: its own, since a tag is sorted in front of the tags below it.
use mathlib.Core.Option
use kube_memos_eks.Markdown.Decimal.{print_nat}
use mathlib.Core.List.{append_assoc}
use kube_memos_eks.Base.Sorting.{IsOrdered, sort-IsOrdered, filter-sort}
use kube_memos_eks.View.TagTree.{
  TagAmount, text_ltb, printed, comes_before, sort_tags, has_several, amount_at, build_tags,
}
use kube_memos_eks.View.TagTree.Paths.{lookup, path_text, text_from, starts_path, build_tags-lookup}
use kube_memos_eks.Base.{
  ltb, ◌==◌, if◌then◌else◌, Bool-cases, length, filter, find, All, Text, text_eq, text_eq_sound,
  text_eq_refl, text_eq_iff, join, split_at, split, join-split, ℕ, ◌≤◌, ◌≡◌, refl, sym, ap, ◌∙◌,
  ◌≢◌, ◌⊎◌, inl, inr, Bool, true, false, ◌&&◌, none, some, List, [], ◌∷◌, ◌++◌, arith,
}

clash : true ≢ false
clash e = cc

text_ltb_asymmetric : (s t : Text) → text_ltb s t ≡ true → text_ltb t s ≡ false
text_ltb_asymmetric s [] h = cc
text_ltb_asymmetric [] (d ∷ t) h = refl
text_ltb_asymmetric (c ∷ s) (d ∷ t) h = ground (arith, text_ltb_asymmetric s t)

text_ltb_transitive :
    (s t u : Text) → text_ltb t s ≡ false → text_ltb u t ≡ false → text_ltb u s ≡ false
text_ltb_transitive [] t u h k = refl
text_ltb_transitive (c ∷ s) [] u h k = cc
text_ltb_transitive (c ∷ s) (d ∷ t) [] h k = cc
text_ltb_transitive (c ∷ s) (d ∷ t) (e ∷ u) h k = ground (arith, text_ltb_transitive s t u)

-- A tag below another is sorted behind it, since a comma is before a slash.
below-printed : (s x y : Text) → text_ltb (s ++ 44 ∷ x) (s ++ 47 ∷ y) ≡ true
below-printed [] x y = refl
below-printed (c ∷ s) x y = ground (arith, below-printed s x y)

-- A path that starts another is its text, or is followed by a slash in it.
starts_path-join :
    (q : Text) (qs : List Text) (r : Text) (rs : List Text)
    → starts_path (q ∷ qs) (r ∷ rs) ≡ true
    → (join (47 ∷ []) (r ∷ rs) ≡ join (47 ∷ []) (q ∷ qs))
      ⊎ ((y : Text) × (join (47 ∷ []) (r ∷ rs) ≡ join (47 ∷ []) (q ∷ qs) ++ 47 ∷ y))
starts_path-join q [] r [] h = inl (text_eq_sound r q (ground arith))
starts_path-join q [] r (l ∷ rs) h = inr (
  join (47 ∷ []) (l ∷ rs),
  ap (λ z. z ++ 47 ∷ join (47 ∷ []) (l ∷ rs)) (text_eq_sound r q (ground arith)),
)
starts_path-join q (k ∷ qs) r [] h = absurd (ground arith)
starts_path-join q (k ∷ qs) r (l ∷ rs) h =
    let same = text_eq_sound r q (ground arith) in
    elim (starts_path-join k qs l rs (ground arith)) [
      | inl e ↦ inl (rw (same, e) refl)
      | inr (y, e) ↦
          inr (y, rw (same, e) (sym (append_assoc q (47 ∷ join (47 ∷ []) (k ∷ qs)) (47 ∷ y))))
    ]

starts_path_refl : (ks : List Text) → starts_path ks ks ≡ true
starts_path_refl [] = refl
starts_path_refl (k ∷ ks) = ground (arith, text_eq_refl k, starts_path_refl ks)

text_from-join : (x : Text) (ks : List Text) → text_from x ks ≡ join (47 ∷ []) (x ∷ ks)
text_from-join x [] = refl
text_from-join x (l ∷ []) = refl
text_from-join x (l ∷ k ∷ ks) =
    text_from-join (x ++ 47 ∷ l) (k ∷ ks) ∙ append_assoc x (47 ∷ l) (47 ∷ join (47 ∷ []) (k ∷ ks))

-- A tag of the tree that has this name, and this amount too.
abbrev pub named : Text → TagAmount → Bool
named name u = text_eq u.0 name

abbrev pub exactly : TagAmount → TagAmount → Bool
exactly t u = text_eq u.0 t.0 && u.1 == t.1

abbrev pub count_if : (TagAmount → Bool) → List TagAmount → ℕ
count_if p ts = length (filter p ts)

exactly-named :
    (t : TagAmount) (ts : List TagAmount) → count_if (exactly t) ts ≤ count_if (named t.0) ts
exactly-named t [] = omega arith
exactly-named t (u ∷ us) = ground (arith, exactly-named t us)

has_several_lem :
    (t : TagAmount) (ts : List TagAmount)
    → count_if (named t.0) ts ≡ count_if (exactly t) ts
    → has_several ts t.0 ≡ (ltb 0 (count_if (exactly t) ts) && ltb 1 t.1)
has_several_lem t [] h = refl
has_several_lem t (u ∷ us) h = ground (arith, exactly-named t us, has_several_lem t us)

-- An entry that is exact, among those of a kind.
exact_one :
    (t : TagAmount) (Q : TagAmount → Type 0) (ts : List TagAmount)
    → All Q ts
    → 1 ≤ count_if (exactly t) ts
    → (u : TagAmount) × (exactly t u ≡ true) × Q u
exact_one t Q [] a h = absurd (omega arith)
exact_one t Q (u ∷ us) (q, a) h = elim (Bool-cases (exactly t u)) [
  | inl e ↦ (u, e, q)
  | inr e ↦ exact_one t Q us a (ground arith)
]

-- An entry with the name comes before each entry below it.
comes_before-below :
    (t b x : TagAmount) (y : Text) → b.0 ≡ t.0 → x.0 ≡ t.0 ++ 47 ∷ y → comes_before b x ≡ true
unfolding printed
comes_before-below t b x y e f =
    ap (λ z. text_ltb (z ++ 44 ∷ print_nat b.1) (x.0 ++ 44 ∷ print_nat x.1)) e
    ∙ ap (λ z. text_ltb (t.0 ++ 44 ∷ print_nat b.1) (z ++ 44 ∷ print_nat x.1)) f
    ∙ ap (text_ltb (t.0 ++ 44 ∷ print_nat b.1)) (append_assoc t.0 (47 ∷ y) (44 ∷ print_nat x.1))
    ∙ below-printed t.0 (print_nat b.1) (y ++ 44 ∷ print_nat x.1)

-- No entry that has the name stands behind one below it.
not_behind :
    (t x : TagAmount) (y : Text) (ts : List TagAmount)
    → x.0 ≡ t.0 ++ 47 ∷ y
    → All (λ b. comes_before b x ≡ false) ts
    → count_if (exactly t) ts ≡ 0
not_behind t x y ts e a = elim (Bool-cases (count_if (exactly t) ts == 0)) [
  | inl z ↦ ground arith
  | inr z ↦
      let (b, ex, q) = exact_one t (λ b. comes_before b x ≡ false) ts a (ground arith) in
      absurd (clash (sym (comes_before-below t b x y (text_eq_sound b.0 t.0 (ground arith)) e) ∙ q))
]

-- The same of the texts themselves.
path_of_text :
    (s u : Text)
    → starts_path (split 47 s) (split 47 u) ≡ true
    → (u ≡ s) ⊎ ((y : Text) × (u ≡ s ++ 47 ∷ y))
path_of_text s u h =
    elim (starts_path-join (split_at 47 s).0 (split_at 47 s).1 (split_at 47 u).0 (split_at 47 u).1
      h) [
        | inl e ↦ inl (sym (join-split 47 u) ∙ e ∙ join-split 47 s)
        | inr (y, e) ↦ inr (y, sym (join-split 47 u) ∙ e ∙ ap (λ z. z ++ 47 ∷ y) (join-split 47 s))
      ]

not_named : (s u : Text) → starts_path (split 47 s) (split 47 u) ≡ false → text_eq u s ≡ false
not_named s u h = elim (Bool-cases (text_eq u s)) [
  | inl e ↦ absurd (
      clash (
        sym (starts_path_refl (split 47 s))
        ∙ ap (λ z. starts_path (split 47 s) (split 47 z)) (sym (text_eq_sound u s e))
        ∙ h))
  | inr e ↦ e
]

-- The first entry of a sorted list whose path the name's path starts has the amount of the name.
find_own :
    (t : TagAmount) (ts : List TagAmount)
    → IsOrdered comes_before ts
    → count_if (named t.0) ts ≡ count_if (exactly t) ts
    → 1 ≤ count_if (exactly t) ts
    → (u : TagAmount) × (find (λ u. starts_path (split 47 t.0) (split 47 u.0)) ts ≡ some u)
      × (u.1 ≡ t.1)
find_own t [] o c h = absurd (omega arith)
find_own t (x ∷ xs) (a, o) c h = elim (Bool-cases (starts_path (split 47 t.0) (split 47 x.0))) [
  | inl p ↦ elim (Bool-cases (exactly t x)) [
    | inl e ↦ (x, rw p refl, ground arith)
    | inr e ↦ absurd (elim (path_of_text t.0 x.0 p) [
      | inl same ↦ let is_named = (text_eq_iff x.0 t.0).1 same in ground (arith, exactly-named t xs)
      | inr (y, below) ↦ let gone = not_behind t x y xs below a in ground arith
    ])
  ]
  | inr p ↦
      let other = not_named t.0 x.0 p in
      let (u, e, same) = find_own t xs o (ground arith) (ground arith) in (u, rw p e, same)
]

-- When there is one entry with the name of a tag, the tree has the tag under the keys of its name,
-- and it shows the tag's own amount, where that is above 1, and else 0.
pub build_tags-own_amount :
    (raw : List TagAmount) (t : TagAmount)
    → count_if (named t.0) raw ≡ 1
    → count_if (exactly t) raw ≡ 1
    → lookup none (split 47 t.0) (build_tags raw) ≡ some (if ltb 1 t.1 then t.1 else 0)
build_tags-own_amount raw t c e =
    let ts = sort_tags raw in
    let names = filter-sort comes_before (named t.0) raw ∙ c in
    let exacts = filter-sort comes_before (exactly t) raw ∙ e in
    let sorted =
      sort-IsOrdered comes_before (λ a b. text_ltb_asymmetric (printed a) (printed b))
        (λ a b c. text_ltb_transitive (printed a) (printed b) (printed c)) raw in
    let (u, found, same) = find_own t ts sorted (names ∙ sym exacts) (omega arith) in
    let text = text_from-join (split_at 47 t.0).0 (split_at 47 t.0).1 ∙ join-split 47 t.0 in
    let several = has_several_lem t ts (names ∙ sym exacts) in
    build_tags-lookup raw (split_at 47 t.0).0 (split_at 47 t.0).1
    ∙ ap
        (Option.map
          (λ v. amount_at ts v.1 (path_text none (split_at 47 t.0).0 (split_at 47 t.0).1)))
        found
    ∙ ap (λ z. some (amount_at ts u.1 z)) text
    ∙ ap (λ n. some (amount_at ts n t.0)) same
    ∙ ap (λ b. some (if b then t.1 else 0)) (several ∙ ap (λ n. ltb 0 n && ltb 1 t.1) exacts)
