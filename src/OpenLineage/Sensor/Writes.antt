-- ===== src/OpenLineage/Sensor/Writes.antt =====
-- What the handlers' writes do to a look-up.
use community_integrations.Base.{
  ◌≡◌, refl, arith, List, [], ◌∷◌, String, string_eq, some, if◌then◌else◌, ◌==◌,
}
use community_integrations.Base.Action.{for_each}
use community_integrations.Base.Dict.{get, pop, get-pop, get-append}
use community_integrations.OpenLineage.Event.{Emission}
use community_integrations.OpenLineage.Sensor.{
  Running, RunningPipeline, Backend, State, promote, emit,
}

pub get-promote :
    (run : String) (p : RunningPipeline) (running : Running) (j : String)
    → get (promote run p running) j ≡ (if run == j then some p else get running j)
unfolding promote get
get-promote run p running j =
    let popped = get-pop running run j in
    let all = get-append (pop running run) ((run, p) ∷ []) j in ground arith

module _ {E W A : Type 0} (backend : Backend E W) (f : A → Emission) where
  pub emit_all-running :
      (xs : List A) (s : State W) → (for_each (λ a. emit backend (f a)) xs s).1.running ≡ s.running
  unfolding for_each emit
  emit_all-running [] s = refl
  emit_all-running (x ∷ xs) s = ground (arith, emit_all-running xs (emit backend (f x) s).1)
