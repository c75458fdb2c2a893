-- ===== src/Session/OAuth/Hex.antt =====
-- The random state as text: 2 digits for each byte, and no two byte sequences alike.
use kube_memos_eks.Session.OAuth.{hex_digit, secure_state}
use kube_memos_eks.Base.{length, All, ℕ, ◌*◌, ◌/◌, ◌%◌, ◌<◌, ◌≡◌, refl, List, [], ◌∷◌, arith}

abbrev pub IsByte : ℕ → Type 0
IsByte b = b < 256

-- 32 random bytes give 64 digits.
pub length-secure_state : (bytes : List ℕ) → length (secure_state bytes) ≡ 2 * length bytes
unfolding secure_state
length-secure_state [] = omega arith
length-secure_state (b ∷ bytes) = omega (arith, length-secure_state bytes)

hex_digit_inj : (m n : ℕ) → m < 16 → n < 16 → hex_digit m ≡ hex_digit n → m ≡ n
hex_digit_inj m n p q e = ground arith

byte_inj :
    (b c : ℕ)
    → b < 256
    → c < 256
    → hex_digit (b / 16) ≡ hex_digit (c / 16)
    → hex_digit (b % 16) ≡ hex_digit (c % 16)
    → b ≡ c
byte_inj b c p q hi lo =
    let high = hex_digit_inj (b / 16) (c / 16) (omega arith) (omega arith) hi in
    let low = hex_digit_inj (b % 16) (c % 16) (omega arith) (omega arith) lo in omega arith

-- Different random bytes give different states.
pub secure_state_injective :
    (xs ys : List ℕ) → All IsByte xs → All IsByte ys → secure_state xs ≡ secure_state ys → xs ≡ ys
unfolding secure_state
secure_state_injective [] [] p q e = refl
secure_state_injective [] (y ∷ ys) p q e = cc
secure_state_injective (x ∷ xs) [] p q e = cc
secure_state_injective (x ∷ xs) (y ∷ ys) (p, ps) (q, qs) e =
    cc (byte_inj x y p q (cc) (cc), secure_state_injective xs ys ps qs (cc))
