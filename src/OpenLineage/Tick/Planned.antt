-- ===== src/OpenLineage/Tick/Planned.antt =====
-- Which assets a tracked run is still to make.
use community_integrations.Base.{
  ℕ, ◌≡◌, refl, arith, not, ◌||◌, List, [], ◌∷◌, Bool, true, false, String, string_eq, list_eq,
  Option, none, some, contains, if◌then◌else◌, ◌&&◌, ◌==◌, Result, ok, err,
}
use community_integrations.Base.Dict.{get, put, pop, get-put, get-pop}
use community_integrations.Base.Lists.{contains-append, contains-keep}
use community_integrations.OpenLineage.Event.{
  EventType, event_type_eq, AssetData, AssetPath, Event, Record, run_success, run_failure,
  run_canceled, asset_drained, materialization_planned, materialization, failed_to_materialize,
}
use community_integrations.OpenLineage.Sensor.{
  Running, RunningPipeline, Backend, State, promote, handle_pipeline_event, step_branch,
  handle_step_event, asset_branch, handle_asset_event, drain_planned_as_failures, drain_pipeline,
  drain_if_tracked, emit, or_else, new_pipeline, add_path, discard_path,
}
use community_integrations.OpenLineage.Sensor.Writes.{get-promote, emit_all-running}
use community_integrations.OpenLineage.Tick.{
  EventSets, run_termination_types, asset_event_types, dispatch_pipeline, dispatch_step_of,
  dispatch_if_known, dispatch, repository_name, handle_event, handle_entry, handle_record, process,
}

-- Whether an asset is in the planned set of a run.
unfoldable pub is_planned : Running → String → AssetPath → Bool
is_planned running run path =
    contains (or_else (get running run) (new_pipeline none)).planned_asset_paths path

-- What an event does to that.
abbrev pub by_type : EventType → Bool → Bool → Bool
by_type materialization_planned same before = same || before
by_type materialization same before = not same && before
by_type failed_to_materialize same before = not same && before
by_type run_success same before = false
by_type run_failure same before = false
by_type run_canceled same before = false
by_type _ same before = before

unfoldable pub plan_after : String → AssetPath → Record → Bool → Bool
plan_after run path r before = elim r.event [
  | none ↦ before
  | some event ↦
      if event.run_id == run
      then by_type event.event_type (event.asset.path == path) before
      else before
]

unfoldable pub planned_after : String → AssetPath → List Record → Bool → Bool
planned_after run path [] before = before
planned_after run path (r ∷ rs) before = planned_after run path rs (plan_after run path r before)

contains-add_path :
    (p : AssetPath) (s : List AssetPath) (q : AssetPath)
    → contains (add_path p s) q ≡ (p == q || contains s q)
unfolding add_path
contains-add_path p s q = let added = contains-append s (p ∷ []) q in ground arith

contains-discard_path :
    (p : AssetPath) (s : List AssetPath) (q : AssetPath)
    → contains (discard_path p s) q ≡ (not (p == q) && contains s q)
unfolding discard_path
contains-discard_path p s q = let kept = contains-keep (λ q. not (p == q)) s q in ground arith

module _ {E W : Type 0} (backend : Backend E W) (run : String) (path : AssetPath) where
  abbrev At : Option E × State W → Bool → Type 0
  At o b = o.0 ≡ none → is_planned o.1.running run path ≡ b

  handle_asset_event_planned :
      (type : EventType) (r : String) (time : ℕ) (a : AssetData) (s : State W)
      → contains asset_event_types type ≡ true
      → At (handle_asset_event backend type r time a s) (
          if r == run
          then by_type type (a.path == path) (is_planned s.running run path)
          else is_planned s.running run path)
  unfolding handle_asset_event asset_branch emit is_planned
  handle_asset_event_planned type r time a s among h =
      let p = or_else (get s.running r) (new_pipeline none) in
      let moved = get-promote r p s.running run in
      let add =
        get-put (promote r p s.running) r run
          (record p { planned_asset_paths = add_path a.path p.planned_asset_paths }) in
      let discard =
        get-put (promote r p s.running) r run
          (record p { planned_asset_paths = discard_path a.path p.planned_asset_paths }) in
      let adds = contains-add_path a.path p.planned_asset_paths path in
      let discards = contains-discard_path a.path p.planned_asset_paths path in ground arith

  handle_step_event_planned :
      (type : EventType) (name r : String) (time : ℕ) (step : String) (repository : Option String)
      (s : State W)
      → At
          (handle_step_event backend type name r time step repository s)
          (is_planned s.running run path)
  unfolding handle_step_event step_branch emit is_planned
  handle_step_event_planned type name r time step repository s h =
      let p = or_else (get s.running r) (new_pipeline repository) in
      let id = or_else (get p.running_steps step) (backend.make_step_run_id s.world).0 in
      let started =
        get-promote r (record p { running_steps = put p.running_steps step id }) s.running run in
      let ended =
        get-promote r (record p { running_steps = pop p.running_steps step }) s.running run in
      let moved = get-promote r p s.running run in ground arith

  handle_pipeline_event_planned :
      (type : EventType) (name r : String) (time : ℕ) (repository : Option String) (s : State W)
      → contains asset_event_types type ≡ false
      → At (handle_pipeline_event backend type name r time repository s) (
          if r == run
          then by_type type true (is_planned s.running run path)
          else is_planned s.running run path)
  unfolding handle_pipeline_event emit is_planned
  handle_pipeline_event_planned type name r time repository s among h =
      let popped = get-pop s.running r run in
      let started = get-put s.running r run (new_pipeline repository) in ground arith

  drain_if_tracked_planned :
      (r : String) (time : ℕ) (o : Option RunningPipeline) (s : State W)
      → o ≡ get s.running r
      → At
          (drain_if_tracked backend r time false o s)
          (if r == run then false else is_planned s.running run path)
  unfolding drain_pipeline is_planned
  drain_if_tracked_planned r time none s found h = ground arith
  drain_if_tracked_planned r time (some p) s found h =
      let same =
        emit_all-running backend (λ path. asset_drained path r time) p.planned_asset_paths s in
      let drained = get-put s.running r run (record p { planned_asset_paths = [] }) in ground arith

  module _ (sets : EventSets) where
    abbrev event_after : Event → Bool → Bool
    event_after event before =
        if event.run_id == run
        then by_type event.event_type (event.asset.path == path) before
        else before

    dispatch_pipeline_planned :
        (event : Event) (repository : Option String) (s : State W)
        → contains asset_event_types event.event_type ≡ false
        → At
            (dispatch_pipeline backend sets true event repository s)
            (event_after event (is_planned s.running run path))
    unfolding dispatch_pipeline drain_planned_as_failures
    dispatch_pipeline_planned event repository s other h =
        let drained =
          drain_if_tracked_planned event.run_id event.timestamp (get s.running event.run_id) s
            refl in
        let after_drain =
          handle_pipeline_event_planned event.event_type (or_else event.job_name "") event.run_id
            event.timestamp repository
            (drain_if_tracked backend event.run_id event.timestamp false
              (get s.running event.run_id) s).1
            other in
        let at_once =
          handle_pipeline_event_planned event.event_type (or_else event.job_name "") event.run_id
            event.timestamp repository s other in
        ground arith

  module _ (sets : EventSets)
      (terminations : (t : EventType)
        → contains run_termination_types t ≡ true
        → contains sets.pipeline_events t ≡ true) where
    dispatch_step_of_planned :
        (event : Event) (repository name step : Option String) (s : State W)
        → At
            (dispatch_step_of backend sets true event repository name step s)
            (is_planned s.running run path)
    dispatch_step_of_planned event repository (some name) (some step) s h =
        handle_step_event_planned event.event_type name event.run_id event.timestamp step repository
          s h
    dispatch_step_of_planned event repository none _ s h = refl
    dispatch_step_of_planned event repository (some name) none s h = refl

    dispatch_planned :
        (event : Event) (repository : Option String) (s : State W)
        → At
            (dispatch backend sets true event repository s)
            (event_after sets event (is_planned s.running run path))
    unfolding dispatch
    dispatch_planned event repository s h =
        let asset =
          handle_asset_event_planned event.event_type event.run_id event.timestamp event.asset s in
        let pipeline = dispatch_pipeline_planned sets event repository s in
        let step = dispatch_step_of_planned event repository event.job_name event.step_key s in
        let ends = terminations event.event_type in ground arith

    dispatch_if_known_planned :
        (event : Event) (repository : Result E (Option String)) (s : State W)
        → At
            (dispatch_if_known backend sets true event repository s)
            (event_after sets event (is_planned s.running run path))
    dispatch_if_known_planned event (err raised) s h = cc
    dispatch_if_known_planned event (ok repository) s h = dispatch_planned event repository s h

    handle_record_planned :
        (r : Record) (s : State W)
        → At
            (handle_record backend sets true r s)
            (plan_after run path r (is_planned s.running run path))
    unfolding handle_record handle_event plan_after
    handle_record_planned r s h = go r.event h
      where
        go :
            (o : Option Event)
            → At (handle_entry backend sets true o s) (elim o [
              | none ↦ is_planned s.running run path
              | some event ↦ event_after sets event (is_planned s.running run path)
            ])
        go none h = refl
        go (some event) h =
            dispatch_if_known_planned event (repository_name backend sets true event.run_id s) s h

    -- After a loop that handles assets and raised nothing, an asset stands in the planned set of a run
    -- just when it did before, as the events of the run add and remove it: a planned one adds its
    -- asset, one that materialized or failed takes it out, and the run's end empties the set. The events
    -- that end a run must be among Dagster's pipeline events.
    pub process_planned :
        (records : List Record) (last : ℕ) (s : State W)
        → (process backend sets true records last s).raised_exception ≡ none
        → is_planned (process backend sets true records last s).state.running run path
          ≡ planned_after run path records (is_planned s.running run path)
    unfolding process planned_after
    process_planned [] last s h = refl
    process_planned (r ∷ rs) last s h =
        let handled = handle_record_planned r s in
        let later = process_planned rs r.storage_id (handle_record backend sets true r s).1 in
        ground arith
