-- ===== src/OpenLineage/Storage/Step.antt =====
-- What one event tells, and what is planned then.
use mathlib.Core.List.{map}
use community_integrations.Base.{
  ℕ, ◌+◌, ◌≤◌, ◌<◌, ◌≡◌, refl, sym, ap, ◌∙◌, arith, not, inl, inr, String, string_eq, list_eq, List,
  [], ◌∷◌, ◌++◌, Option, none, some, contains, ◌==◌, if◌then◌else◌, Option-cases,
}
use community_integrations.Base.Action.{Action, for_each}
use community_integrations.Base.Dict.{get, pop, keys, get-pop, contains-keys, length-pop-le}
use community_integrations.Base.Lists.{length}
use community_integrations.OpenLineage.Event.{
  EventType, materialization_planned, materialization, failed_to_materialize, observation,
  check_planned, check, run_start, run_success, run_failure, run_canceled, step_start, step_success,
  step_failure, other_event, AssetPath, AssetData,
}
use community_integrations.OpenLineage.Sensor.{add_path, discard_path}
use community_integrations.OpenLineage.Storage.{
  Planned, Call, call_drained, max_synthesis_runs, Memory, tell, track, change, paths_of, drain,
  dispatch_event,
}
use community_integrations.OpenLineage.Storage.Runs.{
  Runs, Matches, with_path, without_path, with_run, all_paths, is_unknown, runs_after, calls_for,
  get-track, length-track, get-change, length-change, changed,
}

module _ {E W : Type 0} (emit : Call → Action E W) where
  unfoldable pub send_all : List Call → W → W
  send_all [] w = w
  send_all (call ∷ calls) w = send_all calls (emit call w).1

  pub send_all-append :
      (calls more : List Call) (w : W)
      → send_all (calls ++ more) w ≡ send_all more (send_all calls w)
  unfolding send_all
  send_all-append [] more w = refl
  send_all-append (call ∷ calls) more w = send_all-append calls more (emit call w).1

  -- An event of the type is told, and changes the table, as it should, if it adds one run at most.
  abbrev pub IsTold : EventType → String → ℕ → AssetData → Memory W → Runs → Type 0
  IsTold type run time a m runs =
      let next = (dispatch_event emit type run time a m).1 in
      (next.world ≡ send_all (calls_for type run time a runs) m.world)
      × Matches next.planned (runs_after type run a.path runs)
      × (length next.planned ≤ length m.planned + 1)

  module _ (quiet : (call : Call) (w : W) → (emit call w).0 ≡ none) where
    tell_each-sends :
        (run : String) (time : ℕ) (paths : List AssetPath) (m : Memory W)
        → ((for_each (λ path. tell emit (call_drained path run time)) paths m).1.world
            ≡ send_all (map (λ path. call_drained path run time) paths) m.world)
          × ((for_each (λ path. tell emit (call_drained path run time)) paths m).1.planned
              ≡ m.planned)
    unfolding for_each tell send_all
    tell_each-sends run time [] m = (refl, refl)
    tell_each-sends run time (path ∷ paths) m =
        rw (quiet (call_drained path run time) m.world)
          (tell_each-sends run time paths (tell emit (call_drained path run time) m).1)

    all_paths-eq : (o : Option (List AssetPath)) → paths_of o ≡ all_paths o
    all_paths-eq none = refl
    all_paths-eq (some paths) = refl

    popped-Matches :
        (run : String) (planned : Planned) (runs : Runs)
        → Matches planned runs
        → Matches (pop planned run) (with_run run none runs)
    popped-Matches run planned runs h other =
        get-pop planned run other ∙ ap (λ o. if run == other then none else o) (h other)

    discarded-Matches :
        (run : String) (path : AssetPath) (planned : Planned) (runs : Runs)
        → Matches planned runs
        → Matches
            (change run (discard_path path) planned)
            (with_run run (without_path path (runs run)) runs)
    unfolding discard_path
    discarded-Matches run path planned runs h other =
        get-change run other (discard_path path) planned
        ∙ rw (h run, h other) (ap (λ o. if run == other then o else runs other) (same (runs run)))
      where
        same : (o : Option (List AssetPath)) → changed (discard_path path) o ≡ without_path path o
        same none = refl
        same (some paths) = refl

    drain-told :
        (run : String) (time : ℕ) (m : Memory W) (runs : Runs)
        → Matches m.planned runs
        → ((drain emit run time m).1.world
            ≡ send_all (map (λ path. call_drained path run time) (all_paths (runs run))) m.world)
          × ((drain emit run time m).1.planned ≡ pop m.planned run)
    unfolding drain
    drain-told run time m runs h =
        let (sent, kept) =
          tell_each-sends run time (paths_of (get m.planned run))
            (record m { planned = pop m.planned run }) in
        (sent ∙ rw (h run, all_paths-eq (runs run)) refl, kept)

    added_path :
        (path : AssetPath) (o : Option (List AssetPath))
        → add_path path (paths_of o) ≡ with_path path o
    unfolding add_path
    added_path path none = refl
    added_path path (some paths) = refl

    added-Matches :
        (run : String) (path : AssetPath) (planned : Planned) (runs : Runs)
        → length planned < max_synthesis_runs
        → Matches planned runs
        → Matches
            (change run (add_path path) (track run planned))
            (with_run run (some (with_path path (runs run))) runs)
    added-Matches run path planned runs room h other =
        let made = get-change run other (add_path path) (track run planned) in
        let own = get-track run run planned room in
        let others = get-track run other planned room in
        let at_run = h run in
        let at_other = h other in let same = added_path path (get planned run) in ground arith

    unknown-eq :
        (run : String) (planned : Planned) (runs : Runs)
        → Matches planned runs
        → not (contains (keys planned) run) ≡ is_unknown (runs run)
    unknown-eq run planned runs h =
        let at_run = h run in
        let known = contains-keys planned run in
        elim (Option-cases (get planned run)) [
          | inl unknown ↦
              let none_there : runs run ≡ none = sym at_run ∙ unknown in ground (arith, unknown)
          | inr (paths, found) ↦
              let there : runs run ≡ some paths = sym at_run ∙ found in ground (arith, found)
        ]

    drained-IsTold :
        (run : String) (time : ℕ) (m : Memory W) (runs : Runs)
        → Matches m.planned runs
        → let next = (drain emit run time m).1 in
          (next.world
            ≡ send_all (map (λ path. call_drained path run time) (all_paths (runs run))) m.world)
          × Matches next.planned (with_run run none runs)
          × (length next.planned ≤ length m.planned + 1)
    drained-IsTold run time m runs h =
        let (sent, popped) = drain-told run time m runs h in
        let less = length-pop-le m.planned run in
        (sent, rw popped (popped-Matches run m.planned runs h), rw popped (omega arith))

    pub dispatch_event-IsTold :
        (type : EventType) (run : String) (time : ℕ) (a : AssetData) (m : Memory W) (runs : Runs)
        → length m.planned < max_synthesis_runs
        → Matches m.planned runs
        → IsTold type run time a m runs
    unfolding dispatch_event tell send_all
    dispatch_event-IsTold materialization_planned run time a m runs room h = (
      refl,
      added-Matches run a.path m.planned runs room h,
      rw (length-change run (add_path a.path) (track run m.planned))
          (length-track run m.planned room),
    )
    dispatch_event-IsTold materialization run time a m runs room h = (
      refl,
      discarded-Matches run a.path m.planned runs h,
      rw (length-change run (discard_path a.path) m.planned) (omega arith),
    )
    dispatch_event-IsTold failed_to_materialize run time a m runs room h = (
      refl,
      discarded-Matches run a.path m.planned runs h,
      rw (length-change run (discard_path a.path) m.planned) (omega arith),
    )
    dispatch_event-IsTold observation run time a m runs room h = (refl, h, omega arith)
    dispatch_event-IsTold check_planned run time a m runs room h =
        (rw (unknown-eq run m.planned runs h) refl, h, omega arith)
    dispatch_event-IsTold check run time a m runs room h = (refl, h, omega arith)
    dispatch_event-IsTold run_failure run time a m runs room h = drained-IsTold run time m runs h
    dispatch_event-IsTold step_failure run time a m runs room h = drained-IsTold run time m runs h
    dispatch_event-IsTold run_success run time a m runs room h = (
      refl,
      popped-Matches run m.planned runs h,
      let less = length-pop-le m.planned run in omega arith,
    )
    dispatch_event-IsTold run_canceled run time a m runs room h = (
      refl,
      popped-Matches run m.planned runs h,
      let less = length-pop-le m.planned run in omega arith,
    )
    dispatch_event-IsTold run_start run time a m runs room h = (refl, h, omega arith)
    dispatch_event-IsTold step_start run time a m runs room h = (refl, h, omega arith)
    dispatch_event-IsTold step_success run time a m runs room h = (refl, h, omega arith)
    dispatch_event-IsTold (other_event name) run time a m runs room h = (refl, h, omega arith)

    tell_each-quiet :
        (run : String) (time : ℕ) (paths : List AssetPath) (m : Memory W)
        → (for_each (λ path. tell emit (call_drained path run time)) paths m).0 ≡ none
    unfolding for_each tell
    tell_each-quiet run time [] m = refl
    tell_each-quiet run time (path ∷ paths) m =
        rw (quiet (call_drained path run time) m.world)
          (tell_each-quiet run time paths (tell emit (call_drained path run time) m).1)

    pub dispatch_event-quiet :
        (type : EventType) (run : String) (time : ℕ) (a : AssetData) (m : Memory W)
        → (dispatch_event emit type run time a m).0 ≡ none
    unfolding dispatch_event drain tell
    dispatch_event-quiet materialization_planned run time a m = quiet _ m.world
    dispatch_event-quiet materialization run time a m = quiet _ m.world
    dispatch_event-quiet failed_to_materialize run time a m = quiet _ m.world
    dispatch_event-quiet observation run time a m = quiet _ m.world
    dispatch_event-quiet check_planned run time a m = quiet _ m.world
    dispatch_event-quiet check run time a m = quiet _ m.world
    dispatch_event-quiet run_failure run time a m = tell_each-quiet run time _ _
    dispatch_event-quiet step_failure run time a m = tell_each-quiet run time _ _
    dispatch_event-quiet run_success run time a m = refl
    dispatch_event-quiet run_canceled run time a m = refl
    dispatch_event-quiet run_start run time a m = refl
    dispatch_event-quiet step_start run time a m = refl
    dispatch_event-quiet step_success run time a m = refl
    dispatch_event-quiet (other_event name) run time a m = refl
