-- ===== src/Base/Action.antt =====
-- Code that changes a state and may raise: what it raised, if anything, and the state it leaves.
pub mod Hoare
use mathlib.Core.Option.{Option, none, some}
use mathlib.Core.List.{List, [], ◌∷◌}

abbrev pub Action : Type 0 → Type 0 → Type 0
Action E S = S → Option E × S

module _ {E S : Type 0} where
  abbrev pub skip : Action E S
  skip s = (none, s)

  abbrev pub modify : (S → S) → Action E S
  modify f s = (none, f s)

  abbrev pub after : Action E S → Option E × S → Option E × S
  after next (none, s) = next s
  after next (some e, s) = (some e, s)

  infixl 10 ◌>>◌
  -- One statement after another.
  abbrev pub ◌>>◌ : Action E S → Action E S → Action E S
  ◌>>◌ first second s = after second (first s)

  -- `for x in xs: f(x)`
  unfoldable pub for_each : {A : Type 0} → (A → Action E S) → List A → Action E S
  for_each f [] = skip
  for_each f (x ∷ xs) = f x >> for_each f xs
