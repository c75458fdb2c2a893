-- ===== src/Base/Lines.antt =====
-- Splitting a text at one code unit, joining it again, and its longest prefix of a kind.
use Prim.Native.Nat.{ℕ}
use mathlib.Core.Path.{◌≡◌, refl}
use mathlib.Core.Bool.{Bool, true, false, not, ◌&&◌}
use mathlib.Core.List.{List, [], ◌∷◌, ◌++◌}
use native.Mathlib.Omega.{arith}
use kube_memos_eks.Base.Tests.{◌==◌}
use kube_memos_eks.Base.Lists.{all}
use kube_memos_eks.Base.Strings.{Text, span, join, split_at, split}

-- No code unit of the text is `sep`.
abbrev pub lacks : ℕ → Text → Bool
lacks sep s = all (λ c. not (c == sep)) s

-- The last of a nonempty list.
abbrev pub last : Text → List Text → Text
last x [] = x
last x (y ∷ ys) = last y ys

pub all-append :
    {A : Type 0} (p : A → Bool) (xs ys : List A) → all p (xs ++ ys) ≡ (all p xs && all p ys)
all-append p [] ys = refl
all-append p (x ∷ xs) ys = ground (arith, all-append p xs ys)

module _ (sep : ℕ) where
  pub split_at-lacks : (s : Text) → lacks sep s ≡ true → split_at sep s ≡ (s, [])
  split_at-lacks [] h = refl
  split_at-lacks (c ∷ s) h = ground (arith, split_at-lacks s)

  pub split_at-append :
      (s t : Text) → lacks sep s ≡ true → split_at sep (s ++ sep ∷ t) ≡ (s, split sep t)
  split_at-append [] t h = ground arith
  split_at-append (c ∷ s) t h = ground (arith, split_at-append s t)

  -- Lines that hold no separator are what their join splits into.
  pub split-join :
      (x : Text) (xs : List Text)
      → all (lacks sep) (x ∷ xs) ≡ true
      → split sep (join (sep ∷ []) (x ∷ xs)) ≡ x ∷ xs
  split-join x [] h = ground (arith, split_at-lacks x)
  split-join x (y ∷ xs) h =
      ground (arith, split_at-append x (join (sep ∷ []) (y ∷ xs)), split-join y xs)

  -- What a text splits into holds no separator.
  pub split-lacks : (s : Text) → all (lacks sep) (split sep s) ≡ true
  split-lacks [] = refl
  split-lacks (c ∷ s) = ground (arith, split-lacks s)

  join-cons :
      (c : ℕ) (x : Text) (xs : List Text)
      → join (sep ∷ []) ((c ∷ x) ∷ xs) ≡ c ∷ join (sep ∷ []) (x ∷ xs)
  join-cons c x [] = refl
  join-cons c x (y ∷ xs) = refl

  -- Joining what a text splits into gives the text.
  pub join-split : (s : Text) → join (sep ∷ []) (split sep s) ≡ s
  join-split [] = refl
  join-split (c ∷ s) =
      ground (arith, join-split s, join-cons c (split_at sep s).0 (split_at sep s).1)

module _ (p : ℕ → Bool) where
  pub span-all : (s : Text) → all p (span p s).0 ≡ true
  span-all [] = refl
  span-all (c ∷ s) = ground (arith, span-all s)

  pub span-append : (s : Text) → (span p s).0 ++ (span p s).1 ≡ s
  span-append [] = refl
  span-append (c ∷ s) = ground (arith, span-append s)

  pub span_prefix :
      (s : Text) (c : ℕ) (t : Text)
      → all p s ≡ true
      → p c ≡ false
      → span p (s ++ c ∷ t) ≡ (s, c ∷ t)
  span_prefix [] c t h n = ground arith
  span_prefix (d ∷ s) c t h n = ground (arith, span_prefix s c t)
