-- ===== src/Base/Call.antt =====
-- Code that changes a state and returns a value, or raises.
use mathlib.Core.Path.{◌≡◌, refl}
use native.Mathlib.Omega.{arith}
use community_integrations.Base.Raising.{Result, ok, err}

abbrev pub Call : Type 0 → Type 0 → Type 0 → Type 0
Call E S A = S → Result E A × S

module _ {E S : Type 0} where
  abbrev pub pure : {A : Type 0} → A → Call E S A
  pure a s = (ok a, s)

  abbrev pub raise : {A : Type 0} → E → Call E S A
  raise e s = (err e, s)

  module _ {A B : Type 0} where
    abbrev pub follow : (A → Call E S B) → Result E A × S → Result E B × S
    follow next (ok a, s) = next a s
    follow next (err e, s) = (err e, s)

    infixl 10 ◌>>=◌
    abbrev pub ◌>>=◌ : Call E S A → (A → Call E S B) → Call E S B
    (first >>= next) s = follow next (first s)

    -- A chain that returned got a value from its first call.
    pub follow_returned :
        (next : A → Call E S B) (r : Result E A × S) {b : B}
        → (follow next r).0 ≡ ok b
        → (a : A) × (r.0 ≡ ok a) × (follow next r ≡ next a r.1)
    follow_returned next (ok a, s) h = (a, refl, refl)
    follow_returned next (err e, s) h = cc

    pub follow_ok :
        (next : A → Call E S B) (r : Result E A × S) {a : A}
        → r.0 ≡ ok a
        → follow next r ≡ next a r.1
    follow_ok next (ok a, s) h = ground arith
    follow_ok next (err e, s) h = cc
