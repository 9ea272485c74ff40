-- ===== src/OpenLineage/Emitter/Laws.antt =====
-- How often the emitter logs.
use community_integrations.Base.{
  ℕ, ◌+◌, ◌≤◌, ◌≡◌, refl, arith, Bool, Bool-cases, inl, inr, List, [], ◌∷◌, Option, none, some, Eq,
  ◌==◌, if◌then◌else◌,
}
use community_integrations.Base.Dict.{get, get-put}
use community_integrations.OpenLineage.Emitter.{
  Emitter, is_due, rate_limit_window_seconds, log_rate_limited, settled, emit_event, emit_events,
}

-- Times, the last one first, that are a minute apart or more.
abbrev pub IsSpaced : List ℕ → Type 0
IsSpaced [] = Unit
IsSpaced (t ∷ []) = Unit
IsSpaced (t ∷ u ∷ ts) = (u + rate_limit_window_seconds ≤ t) × IsSpaced (u ∷ ts)

abbrev last_of : List ℕ → Option ℕ
last_of [] = none
last_of (t ∷ ts) = some t

IsSpaced-cons :
    (t : ℕ) (ts : List ℕ)
    → ((u : ℕ) → last_of ts ≡ some u → u + rate_limit_window_seconds ≤ t)
    → IsSpaced ts
    → IsSpaced (t ∷ ts)
IsSpaced-cons t [] apart h = tt
IsSpaced-cons t (u ∷ ts) apart h = (apart u refl, h)

-- When errors of a class were logged.
unfoldable pub times : {C : Type 0} → ⦃e : Eq C⦄ → C → List (C × ℕ) → List ℕ
times c [] = []
times c ((d, t) ∷ errors) = let rest = times c errors in if d == c then t ∷ rest else rest

module _ {C W : Type 0} ⦃e : Eq C⦄ where
  abbrev IsKept : C → Emitter C W → Type 0
  IsKept c s = IsSpaced (times c s.errors) × (get s.last_logged_at c ≡ last_of (times c s.errors))

  log_rate_limited-IsKept :
      (c d : C) (now : ℕ) (s : Emitter C W) → IsKept c s → IsKept c (log_rate_limited d now s)
  unfolding log_rate_limited times
  log_rate_limited-IsKept c d now s (spaced, last) =
      let written = get-put s.last_logged_at d c now in
      elim (e.dec d c) [
        | no other ↦ ground (arith, other)
        | yes same ↦ elim (Bool-cases (is_due (get s.last_logged_at d) now)) [
          | inr early ↦ ground (arith, early)
          | inl due ↦
              let longer =
                IsSpaced-cons now (times c s.errors) (λ u h. ground (arith, same, due, last))
                  spaced in
              ground (arith, due, same)
        ]
      ]

  settled-IsKept :
      (is_exception : C → Bool) (c : C) (raised : Option C) (now : ℕ) (s : Emitter C W)
      → IsKept c s
      → IsKept c (settled is_exception raised now s).1
  settled-IsKept is_exception c none now s h = h
  settled-IsKept is_exception c (some d) now s h = elim (Bool-cases (is_exception d)) [
    | inl caught ↦ rw caught (log_rate_limited-IsKept c d now s h)
    | inr free ↦ rw free h
  ]

-- A new emitter.
abbrev pub new_emitter : {C W : Type 0} → W → Emitter C W
new_emitter world = record { last_logged_at = []; errors = []; world = world }

module _ {C W A : Type 0} ⦃e : Eq C⦄ (is_exception : C → Bool) (client : A → W → Option C × W) where
  emit_events-IsKept :
      (c : C) (events : List (A × ℕ)) (s : Emitter C W)
      → IsKept c s
      → IsKept c (emit_events is_exception client events s)
  unfolding emit_events emit_event
  emit_events-IsKept c [] s h = h
  emit_events-IsKept c ((event, now) ∷ events) s h =
      emit_events-IsKept c events (emit_event is_exception client event now s).1 (
        settled-IsKept is_exception c (client event s.world).0 now
          (record s { world = (client event s.world).1 }) h)

  -- Whatever a new emitter emits, and however the client fails, the errors of one class in the log
  -- are at least a minute apart.
  pub emit_events-IsSpaced :
      (events : List (A × ℕ)) (world : W) (c : C)
      → IsSpaced (times c (emit_events is_exception client events (new_emitter world)).errors)
  unfolding times get
  emit_events-IsSpaced events world c =
      (emit_events-IsKept c events (new_emitter world) (tt, refl)).0
