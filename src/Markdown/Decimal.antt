-- ===== src/Markdown/Decimal.antt =====
-- Numbers as decimal text: `parseInt` of digits, and a number in a template literal. Numbers are
-- exact here, as they are below 2^53 in the source.
use kube_memos_eks.Base.{
  ltb, leb, if◌then◌else◌, Bool-cases, all, Text, ℕ, zero, suc, ◌+◌, ◌-◌, ◌*◌, ◌/◌, ◌%◌, ◌<◌, ◌≡◌,
  refl, ap, ◌∙◌, ◌≢◌, inl, inr, Bool, true, ◌&&◌, [], ◌∷◌, arith,
}

-- `\d`
abbrev pub is_digit : ℕ → Bool
is_digit c = leb 48 c && leb c 57

unfoldable pub parse_from : ℕ → Text → ℕ
parse_from acc [] = acc
parse_from acc (c ∷ s) = parse_from (10 * acc + (c - 48)) s

-- The digits of `n` in front of `acc`; the fuel is above the number.
unfoldable pub print_fuel : ℕ → ℕ → Text → Text
print_fuel zero n acc = acc
print_fuel (suc f) n acc =
    let more = print_fuel f (n / 10) ((48 + n % 10) ∷ acc) in
    if ltb n 10 then (48 + n) ∷ acc else more

unfoldable pub print_nat : ℕ → Text
unfolding print_fuel
print_nat n = print_fuel (suc n) n []

parse_from-print_fuel :
    (f n : ℕ) (acc : Text) → n < f → parse_from 0 (print_fuel f n acc) ≡ parse_from n acc
unfolding parse_from print_fuel
parse_from-print_fuel zero n acc h = absurd (omega arith)
parse_from-print_fuel (suc f) n acc h = elim (Bool-cases (ltb n 10)) [
  | inl e ↦ rw e (ap (λ m. parse_from m acc) (omega arith))
  | inr e ↦ rw e (
      parse_from-print_fuel f (n / 10) ((48 + n % 10) ∷ acc) (ground arith)
      ∙ ap (λ m. parse_from m acc) (omega arith))
]

all-print_fuel :
    (f n : ℕ) (acc : Text) → all is_digit acc ≡ true → all is_digit (print_fuel f n acc) ≡ true
unfolding print_fuel
all-print_fuel zero n acc h = h
all-print_fuel (suc f) n acc h = ground (arith, all-print_fuel f (n / 10) ((48 + n % 10) ∷ acc))

-- A printed number is read back, and its text is digits.
pub parse_from-print_nat : (n : ℕ) → parse_from 0 (print_nat n) ≡ n
unfolding print_nat
parse_from-print_nat n =
    parse_from-print_fuel (suc n) n [] (omega arith) ∙ unfold parse_from in refl

pub all-print_nat : (n : ℕ) → all is_digit (print_nat n) ≡ true
unfolding print_nat
all-print_nat n = all-print_fuel (suc n) n [] refl

print_fuel-ne : (f n : ℕ) (acc : Text) → acc ≢ [] → print_fuel f n acc ≢ []
unfolding print_fuel
print_fuel-ne zero n acc h = h
print_fuel-ne (suc f) n acc h = ground (arith, print_fuel-ne f (n / 10) ((48 + n % 10) ∷ acc))

pub print_nat-ne : (n : ℕ) → print_nat n ≢ []
unfolding print_nat print_fuel
print_nat-ne n = ground (arith, print_fuel-ne n (n / 10) ((48 + n % 10) ∷ []))
