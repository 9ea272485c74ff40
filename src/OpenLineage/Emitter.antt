-- ===== src/OpenLineage/Emitter.antt =====
-- emitter.py: emitting an event without letting an `Exception` of the client through, and with at most
-- one error in the log for each class of exceptions and minute. The client is a parameter; an
-- exception is its class, which is one of `Exception` or not, and time is counted in seconds.
pub mod Laws
mod Tests
use community_integrations.Base.{
  ℕ, ◌+◌, Bool, true, List, [], ◌∷◌, Option, none, some, Eq, if◌then◌else◌,
}
use community_integrations.Base.Dict.{Dict, get, put}
use community_integrations.Base.Lists.{leb}

-- `_RATE_LIMIT_WINDOW_SECONDS`
abbrev pub rate_limit_window_seconds : ℕ
rate_limit_window_seconds = 60

-- `_last_logged_at`, the errors that were logged, the last one first, and the client's world.
pub record Emitter (C W : Type 0) : Type 0 where
  pub last_logged_at : Dict C ℕ
  pub errors : List (C × ℕ)
  pub world : W

abbrev pub is_due : Option ℕ → ℕ → Bool
is_due none now = true
is_due (some last) now = leb (last + rate_limit_window_seconds) now

module _ {C W : Type 0} ⦃e : Eq C⦄ where
  -- `_log_rate_limited`, at the time `now`.
  unfoldable pub log_rate_limited : C → ℕ → Emitter C W → Emitter C W
  log_rate_limited c now s =
      if is_due (get s.last_logged_at c) now
      then record s { last_logged_at = put s.last_logged_at c now; errors = (c, now) ∷ s.errors }
      else s

  -- `except Exception`; a `BaseException` that is no `Exception` goes up.
  abbrev pub settled : (C → Bool) → Option C → ℕ → Emitter C W → Option C × Emitter C W
  settled is_exception none now s = (none, s)
  settled is_exception (some c) now s =
      if is_exception c then (none, log_rate_limited c now s) else (some c, s)

module _ {C W A : Type 0} ⦃e : Eq C⦄ (is_exception : C → Bool) (client : A → W → Option C × W) where
  -- `emit`
  unfoldable pub emit_event : A → ℕ → Emitter C W → Option C × Emitter C W
  emit_event event now s =
      let (raised, w) = client event s.world in
      settled is_exception raised now (record s { world = w })

  -- Events one after another, each with the time at which it is emitted, whatever goes up.
  unfoldable pub emit_events : List (A × ℕ) → Emitter C W → Emitter C W
  emit_events [] s = s
  emit_events ((event, now) ∷ events) s = emit_events events (emit_event event now s).1
