-- ===== src/Base/Actions.antt =====
-- What a statement that may throw gives: a value or the thrown error; and the actions of an async
-- function, which pass a world on also when they throw.

pub data Result {ℓ κ} (E : Type ℓ) (A : Type κ) : Type (ℓ ⊔ κ) where
  ok : A → Result E A
  err : E → Result E A

abbrev pub Action : Type 0 → Type 0 → Type 0 → Type 0
Action W E A = W → Result E A × W

abbrev pub after : {W E A B : Type 0} → Result E A × W → (A → Action W E B) → Result E B × W
after (ok a, w) k = k a w
after (err e, w) k = (err e, w)

infixl 5 ◌>>=◌ ◌>>◌
abbrev pub ◌>>=◌ : {W E A B : Type 0} → Action W E A → (A → Action W E B) → Action W E B
◌>>=◌ m k w = after (m w) k

abbrev pub ◌>>◌ : {W E B : Type 0} → Action W E (Unit {0}) → Action W E B → Action W E B
m >> k = m >>= λ _. k

abbrev pub pure : {W E A : Type 0} → A → Action W E A
pure a w = (ok a, w)

abbrev pub throw : {W E A : Type 0} → E → Action W E A
throw e w = (err e, w)
