-- ===== src/Base/Action.antt =====
-- A request handler: it reads and writes a state, and returns a value or throws. What was written
-- before a throw stays written, as in the source outside a transaction.
use mathlib.Core.Bool.{Bool, true, false}
use mathlib.Core.Option.{Option, none, some}

pub data Result {ℓ κ} (E : Type ℓ) (A : Type κ) : Type (ℓ ⊔ κ) where
  ok : A → Result E A
  err : E → Result E A

abbrev pub Action {ℓ κ ι} : Type ℓ → Type κ → Type ι → Type (ℓ ⊔ κ ⊔ ι)
Action S E A = S → Result E A × S

module _ {ℓ κ ι} {S : Type ℓ} {E : Type κ} {A : Type ι} where
  abbrev pub pure : A → Action S E A
  pure a s = (ok a, s)

  abbrev pub throw : E → Action S E A
  throw e s = (err e, s)

  abbrev pub gets : (S → A) → Action S E A
  gets f s = (ok (f s), s)

  abbrev pub or_throw : Option A → E → Action S E A
  or_throw none e = throw e
  or_throw (some a) e = pure a

infixl 5 ◌>>=◌ ◌>>◌
abbrev pub ◌>>=◌ {ℓ κ ι μ} :
    {S : Type ℓ} {E : Type κ} {A : Type ι} {B : Type μ}
    → Action S E A
    → (A → Action S E B)
    → Action S E B
◌>>=◌ m f s = let (r, s') = m s in elim r [ ok a ↦ f a s' | err e ↦ (err e, s') ]

abbrev pub ◌>>◌ {ℓ κ ι μ} :
    {S : Type ℓ} {E : Type κ} {A : Type ι} {B : Type μ} → Action S E A → Action S E B → Action S E B
m >> k = m >>= λ _. k

abbrev pub throw_if {ℓ κ} : {S : Type ℓ} {E : Type κ} → Bool → E → Action S E (Unit {0})
throw_if true e s = (err e, s)
throw_if false e s = (ok tt, s)

abbrev pub modify {ℓ κ} : {S : Type ℓ} {E : Type κ} → (S → S) → Action S E (Unit {0})
modify f s = (ok tt, f s)

abbrev pub is_ok {ℓ κ ι} : {S : Type ℓ} {E : Type κ} {A : Type ι} → Result E A × S → Bool
is_ok (ok _, _) = true
is_ok (err _, _) = false
