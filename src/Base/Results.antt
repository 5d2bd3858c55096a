-- ===== src/Base/Results.antt =====
-- The outcome of a Go function that returns a value and an error.

-- `err e` carries what the function returns beside a non-nil error, and the error itself.
pub data Result {ℓ κ} (E : Type ℓ) (A : Type κ) : Type (ℓ ⊔ κ) where
  ok : A → Result E A
  err : E → Result E A

infixl 5 ◌>>=◌
abbrev pub ◌>>=◌ {ℓ κ μ} :
    {E : Type ℓ} {A : Type κ} {B : Type μ} → Result E A → (A → Result E B) → Result E B
ok a >>= f = f a
err e >>= f = err e

-- A parser of the protocol package returns the struct that it has filled so far, or a struct
-- marked unknown together with the error.
abbrev pub Parsed {ℓ κ} : Type ℓ → Type κ → Type (ℓ ⊔ κ)
Parsed E A = Result (A × E) A
