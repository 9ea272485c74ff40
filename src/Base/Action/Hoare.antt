-- ===== src/Base/Action/Hoare.antt =====
-- What an action that raised nothing has made true, and how this composes.
use mathlib.Core.Path.{◌≡◌, refl}
use mathlib.Core.Option.{Option, none, some}
use mathlib.Core.Bool.{Bool, true, false}
use community_integrations.Base.Equality.{if◌then◌else◌}
use community_integrations.Base.Action.{Action, after, ◌>>◌}

module _ {E S : Type 0} where
  abbrev pub Ensures : (S → Type 0) → Action E S → (S → Type 0) → Type 0
  Ensures P f Q = (s : S) → P s → (f s).0 ≡ none → Q (f s).1

  after-Ensures :
      (Q R : S → Type 0) (g : Action E S)
      → Ensures Q g R
      → (r : Option E × S) → (r.0 ≡ none → Q r.1)
      → (after g r).0 ≡ none
      → R (after g r).1
  after-Ensures Q R g next (none, t) first h = next t (first refl) h
  after-Ensures Q R g next (some e, t) first h = cc

  -- One statement after another.
  pub then-Ensures :
      (P Q R : S → Type 0) (f g : Action E S) → Ensures P f Q → Ensures Q g R → Ensures P (f >> g) R
  then-Ensures P Q R f g first next s h = after-Ensures Q R g next (f s) (first s h)

  pub both-Ensures :
      (P Q R : S → Type 0) (f : Action E S)
      → Ensures P f Q
      → Ensures P f R
      → Ensures P f (λ s. Q s × R s)
  both-Ensures P Q R f q r s h done = (q s h done, r s h done)

  pub if-Ensures :
      (P Q : S → Type 0) (b : Bool) (f g : Action E S)
      → Ensures P f Q
      → Ensures P g Q
      → Ensures P (if b then f else g) Q
  if-Ensures P Q true f g first second = first
  if-Ensures P Q false f g first second = second
