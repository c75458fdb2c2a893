-- ===== src/Base/Blank.antt =====
-- White space at the ends of a text.
use mathlib.Core.Path.{◌≡◌, refl, sym, ap, ◌∙◌}
use mathlib.Core.Logic.{◌↔◌}
use mathlib.Core.Bool.{true, ◌&&◌}
use mathlib.Core.List.{[], ◌∷◌, ◌++◌, reverse, reverse-cons}
use native.Mathlib.Omega.{arith}
use kube_memos_eks.Base.Strings.{Text, drop_spaces, trim, is_blank}

is_blank-append : (s t : Text) → is_blank (s ++ t) ≡ (is_blank s && is_blank t)
is_blank-append [] t = refl
is_blank-append (c ∷ s) t = ground (arith, is_blank-append s t)

is_blank-reverse : (s : Text) → is_blank (reverse s) ≡ is_blank s
is_blank-reverse [] = refl
is_blank-reverse (c ∷ s) =
    rw (reverse-cons c s, is_blank-append (reverse s) (c ∷ []), is_blank-reverse s) (ground arith)

drop_spaces_of_blank : (s : Text) → is_blank s ≡ true → drop_spaces s ≡ []
drop_spaces_of_blank [] h = refl
drop_spaces_of_blank (c ∷ s) h = ground (arith, drop_spaces_of_blank s)

is_blank-drop_spaces : (s : Text) → is_blank (drop_spaces s) ≡ is_blank s
is_blank-drop_spaces [] = refl
is_blank-drop_spaces (c ∷ s) = ground (arith, is_blank-drop_spaces s)

is_blank-trim : (s : Text) → is_blank (trim s) ≡ is_blank s
unfolding trim
is_blank-trim s =
    is_blank-reverse (drop_spaces (reverse (drop_spaces s)))
    ∙ (is_blank-drop_spaces (reverse (drop_spaces s))
        ∙ (is_blank-reverse (drop_spaces s) ∙ is_blank-drop_spaces s))

-- `trim` gives the empty text exactly for a text of white space.
pub trim-eq-nil_iff : (s : Text) → (trim s ≡ []) ↔ (is_blank s ≡ true)
trim-eq-nil_iff s = (λ e. sym (is_blank-trim s) ∙ ap is_blank e, trim_of_blank)
  where
    trim_of_blank : is_blank s ≡ true → trim s ≡ []
    trim_of_blank h = unfold trim in rw (drop_spaces_of_blank s h)
