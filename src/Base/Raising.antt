-- ===== src/Base/Raising.antt =====
-- Code that may raise: a value, or the exception.
use mathlib.Core.Path.{◌≡◌, refl}
use mathlib.Core.Bool.{Bool}
use mathlib.Core.List.{List, [], ◌∷◌}
use community_integrations.Base.Equality.{if◌then◌else◌}

pub data Result {ℓ κ} (E : Type ℓ) (A : Type κ) : Type (ℓ ⊔ κ) where
  ok : A → Result E A
  err : E → Result E A

module _ {ℓ κ μ} {E : Type ℓ} {A : Type κ} {B : Type μ} where
  infixl 10 ◌>>=◌ ◌>>◌
  -- What follows a call that returned; an exception goes up as it is.
  abbrev pub ◌>>=◌ : Result E A → (A → Result E B) → Result E B
  err raised >>= next = err raised
  ok value >>= next = next value

  abbrev pub ◌>>◌ : Result E A → Result E B → Result E B
  first >> second = first >>= λ _. second

  -- A chain that returned got a value from its first call.
  pub bind_returned :
      (next : A → Result E B) {value : B} (first : Result E A)
      → (first >>= next) ≡ ok value
      → (a : A) × (first ≡ ok a) × (next a ≡ ok value)
  bind_returned next (err raised) h = cc
  bind_returned next (ok a) h = (a, refl, h)

module _ {ℓ κ} {E : Type ℓ} {A : Type κ} where
  -- `[x for x in xs if p(x)]` where the test may raise.
  unfoldable pub keep_if : (A → Result E Bool) → List A → Result E (List A)
  keep_if p [] = ok []
  keep_if p (x ∷ xs) = do passed ← p x; rest ← keep_if p xs; ok (if passed then x ∷ rest else rest)
