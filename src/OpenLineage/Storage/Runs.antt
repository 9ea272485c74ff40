-- ===== src/OpenLineage/Storage/Runs.antt =====
-- What is planned for each run and what is told of each event, and how the table of runs keeps it as long
-- as no run is evicted.
use mathlib.Core.List.{map}
use community_integrations.Base.{
  ℕ, ◌+◌, ◌≤◌, ◌<◌, ◌≡◌, arith, not, Bool, true, false, inl, inr, String, string_eq, list_eq, List,
  [], ◌∷◌, ◌++◌, Option, none, some, contains, ◌==◌, if◌then◌else◌, Option-cases,
}
use community_integrations.Base.Dict.{
  get, pop, get-append, get-pop, get-put, length-pop-le, length-put,
}
use community_integrations.Base.Lists.{length, length-append, keep}
use community_integrations.OpenLineage.Event.{
  Event, EventType, materialization_planned, materialization, failed_to_materialize, observation,
  check_planned, check, run_success, run_failure, run_canceled, step_failure, AssetPath, AssetData,
}
use community_integrations.OpenLineage.Storage.{
  Planned, Call, call_planned, call_materialization, call_observation, call_failed, call_drained,
  call_check_planned, call_check, format_error_message, max_synthesis_runs, track, change, paths_of,
}

-- The planned assets of each run that is known.
abbrev pub Runs : Type 0
Runs = String → Option (List AssetPath)

abbrev pub with_run : String → Option (List AssetPath) → Runs → Runs
with_run run paths runs = λ other. if run == other then paths else runs other

abbrev pub with_path : AssetPath → Option (List AssetPath) → List AssetPath
with_path path none = path ∷ []
with_path path (some paths) = if contains paths path then paths else paths ++ path ∷ []

abbrev pub without_path : AssetPath → Option (List AssetPath) → Option (List AssetPath)
without_path path none = none
without_path path (some paths) = some (keep (λ other. not (path == other)) paths)

abbrev pub all_paths : Option (List AssetPath) → List AssetPath
all_paths none = []
all_paths (some paths) = paths

abbrev pub is_unknown : Option (List AssetPath) → Bool
is_unknown none = true
is_unknown (some paths) = false

-- The assets of a run are planned until they materialize or fail, the run ends, or a step of it fails.
abbrev pub runs_after : EventType → String → AssetPath → Runs → Runs
runs_after materialization_planned run path runs =
    with_run run (some (with_path path (runs run))) runs
runs_after materialization run path runs = with_run run (without_path path (runs run)) runs
runs_after failed_to_materialize run path runs = with_run run (without_path path (runs run)) runs
runs_after step_failure run path runs = with_run run none runs
runs_after run_failure run path runs = with_run run none runs
runs_after run_success run path runs = with_run run none runs
runs_after run_canceled run path runs = with_run run none runs
runs_after _ run path runs = runs

-- Each asset event is told by one call, and the failure of a run or of a step by one for each asset that
-- is planned then.
abbrev pub calls_for : EventType → String → ℕ → AssetData → Runs → List Call
calls_for materialization_planned run time a runs = call_planned a.path run time ∷ []
calls_for materialization run time a runs =
    call_materialization a.path run time a.metadata a.partition ∷ []
calls_for failed_to_materialize run time a runs =
    call_failed a.path run time (format_error_message a.error) a.partition ∷ []
calls_for observation run time a runs = call_observation a.path run time a.metadata a.partition ∷ []
calls_for check_planned run time a runs =
    call_check_planned a.path a.check_name run time (is_unknown (runs run)) ∷ []
calls_for check run time a runs = call_check a run time ∷ []
calls_for run_failure run time a runs =
    map (λ path. call_drained path run time) (all_paths (runs run))
calls_for step_failure run time a runs =
    map (λ path. call_drained path run time) (all_paths (runs run))
calls_for _ run time a runs = []

unfoldable pub runs_after_all : List (Option Event) → Runs → Runs
runs_after_all [] runs = runs
runs_after_all (none ∷ entries) runs = runs_after_all entries runs
runs_after_all (some e ∷ entries) runs =
    runs_after_all entries (runs_after e.event_type e.run_id e.asset.path runs)

unfoldable pub calls_for_all : List (Option Event) → Runs → List Call
calls_for_all [] runs = []
calls_for_all (none ∷ entries) runs = calls_for_all entries runs
calls_for_all (some e ∷ entries) runs =
    calls_for e.event_type e.run_id e.timestamp e.asset runs
    ++ calls_for_all entries (runs_after e.event_type e.run_id e.asset.path runs)

abbrev pub Matches : Planned → Runs → Type 0
Matches planned runs = (run : String) → get planned run ≡ runs run

pub get-track :
    (run other : String) (planned : Planned)
    → length planned < max_synthesis_runs
    → get (track run planned) other
      ≡ (if run == other then some (paths_of (get planned run)) else get planned other)
unfolding track get
get-track run other planned room = elim (string_eq.dec run other) [
  | yes same ↦ elim (Option-cases (get planned run)) [
    | inl unknown ↦
        let all = get-append planned ((run, []) ∷ []) other in ground (arith, unknown, same)
    | inr (paths, found) ↦
        let all = get-append (pop planned run) ((run, paths) ∷ []) other in
        let gone = get-pop planned run other in ground (arith, found, same)
  ]
  | no apart ↦ elim (Option-cases (get planned run)) [
    | inl unknown ↦
        let all = get-append planned ((run, []) ∷ []) other in ground (arith, unknown, apart)
    | inr (paths, found) ↦
        let all = get-append (pop planned run) ((run, paths) ∷ []) other in
        let gone = get-pop planned run other in ground (arith, found, apart)
  ]
]

pub length-track :
    (run : String) (planned : Planned)
    → length planned < max_synthesis_runs
    → length (track run planned) ≤ length planned + 1
unfolding track
length-track run planned room = elim (Option-cases (get planned run)) [
  | inl unknown ↦ let size = length-append planned ((run, []) ∷ []) in ground (arith, unknown)
  | inr (paths, found) ↦
      let size = length-append (pop planned run) ((run, paths) ∷ []) in
      let less = length-pop-le planned run in ground (arith, found)
]

abbrev pub changed :
    (List AssetPath → List AssetPath) → Option (List AssetPath) → Option (List AssetPath)
changed f none = none
changed f (some paths) = some (f paths)

pub get-change :
    (run other : String) (f : List AssetPath → List AssetPath) (planned : Planned)
    → get (change run f planned) other
      ≡ (if run == other then changed f (get planned run) else get planned other)
unfolding change
get-change run other f planned = elim (Option-cases (get planned run)) [
  | inl unknown ↦ elim (string_eq.dec run other) [
    | yes same ↦ ground (arith, unknown, same)
    | no apart ↦ ground (arith, unknown, apart)
  ]
  | inr (paths, found) ↦ let all = get-put planned run other (f paths) in ground (arith, found)
]

pub length-change :
    (run : String) (f : List AssetPath → List AssetPath) (planned : Planned)
    → length (change run f planned) ≡ length planned
unfolding change
length-change run f planned = elim (Option-cases (get planned run)) [
  | inl unknown ↦ ground (arith, unknown)
  | inr (paths, found) ↦ let same = length-put planned run (f paths) found in ground (arith, found)
]
