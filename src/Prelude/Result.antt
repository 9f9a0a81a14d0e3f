-- ===== src/Prelude/Result.antt =====
-- What a Go function returns that ends in an error: a value, or the error (its text where the model keeps
-- the message).
use mathlib.Core.Path.{◌≡◌, refl}
use mathlib.Core.Bool.{Bool, true, false}
use native.Mathlib.Omega.{arith}

pub data Result {ℓ} (E : Type 0) (A : Type ℓ) : Type ℓ where
  err : E → Result E A
  ok : A → Result E A

module _ {ℓ κ} {E : Type 0} {A : Type ℓ} {B : Type κ} where
  infixl 5 ◌>>=◌
  abbrev pub ◌>>=◌ : Result E A → (A → Result E B) → Result E B
  err e >>= k = err e
  ok a >>= k = k a

  -- A chain that succeeds has succeeded at its first link, and behind it.
  pub bind_ok :
      (r : Result E A) (k : A → Result E B) (b : B)
      → (r >>= k) ≡ ok b
      → (a : A) × (r ≡ ok a) × (k a ≡ ok b)
  bind_ok (err e) k b p = absurd (ground arith)
  bind_ok (ok a) k b p = (a, refl, p)

-- `if guard { return err }`
abbrev pub fail_if : {E : Type 0} → Bool → E → Result E (Unit {0})
fail_if b e = elim b [ true ↦ err e | false ↦ ok tt ]

pub fail_if_ok : {E : Type 0} (b : Bool) (e : E) (u : Unit {0}) → fail_if b e ≡ ok u → b ≡ false
fail_if_ok true e u p = absurd (ground arith)
fail_if_ok false e u p = refl
