-- ===== src/OpenLineage/Emitter/Tests.antt =====
-- An emitter whose client is never reached.
use community_integrations.Base.{
  ◌≡◌, ◌==◌, not, Bool, refl, ℕ, List, [], ◌∷◌, String, string_eq, Option, some,
}
use community_integrations.Base.Dict.{get, put}
use community_integrations.OpenLineage.Emitter.{emit_event, emit_events, log_rate_limited}
use community_integrations.OpenLineage.Emitter.Laws.{
  IsSpaced, times, new_emitter, emit_events-IsSpaced,
}

-- The event names the exception that it meets; the world counts nothing.
unfoldable client : String → ℕ → Option String × ℕ
client event world = (some event, world)

-- An interrupt is no `Exception`.
abbrev is_exception : String → Bool
is_exception c = not (c == "KeyboardInterrupt")

abbrev events : List (String × ℕ)
events =
    ("Timeout", 10)
    ∷ ("Timeout", 20)
    ∷ ("KeyboardInterrupt", 25)
    ∷ ("Refused", 30)
    ∷ ("Timeout", 70)
    ∷ []

logged :
    (emit_events is_exception client events (new_emitter 0)).errors
    ≡ ("Timeout", 70) ∷ ("Refused", 30) ∷ ("Timeout", 10) ∷ []
unfolding emit_events emit_event log_rate_limited client get put string_eq
logged = refl

emit_events-IsSpaced_example :
    IsSpaced (times "Timeout" (emit_events is_exception client events (new_emitter 0)).errors)
emit_events-IsSpaced_example = emit_events-IsSpaced is_exception client events 0 "Timeout"
