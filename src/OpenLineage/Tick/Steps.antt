-- ===== src/OpenLineage/Tick/Steps.antt =====
-- The run id of a step is made once, when the step starts, and told again when it ends.
use community_integrations.Base.{
  ℕ, ◌≡◌, refl, arith, List, [], ◌∷◌, Bool, true, false, String, string_eq, option_eq, Option, none,
  some, ◌&&◌, ◌==◌, Result, ok, err,
}
use community_integrations.Base.Dict.{get, put, pop, get-put, get-pop}
use community_integrations.Base.Lists.{All}
use community_integrations.OpenLineage.Event.{
  EventType, event_type_eq, AssetData, Event, Record, Emission, run_success, run_failure,
  run_canceled, step_start, step_success, step_failure, asset_drained, complete_step, start_step,
}
use community_integrations.OpenLineage.Sensor.{
  Running, RunningPipeline, Backend, State, promote, handle_pipeline_event, step_branch,
  handle_step_event, asset_branch, handle_asset_event, drain_planned_as_failures, drain_pipeline,
  drain_if_tracked, emit, or_else, new_pipeline, add_path, discard_path,
}
use community_integrations.OpenLineage.Sensor.Writes.{get-promote, emit_all-running}
use community_integrations.OpenLineage.Tick.{
  EventSets, dispatch_pipeline, dispatch_step_of, dispatch_if_known, dispatch, repository_name,
  handle_event, handle_entry, handle_record, process,
}

-- The run id that is kept of a step of a run.
unfoldable pub step_run_id : Running → String → String → Option String
step_run_id running run step =
    get (or_else (get running run) (new_pipeline none)).running_steps step

-- The end of the step, or of its run.
abbrev pub is_end : EventType → Bool → Bool
is_end step_success same = same
is_end step_failure same = same
is_end run_success same = true
is_end run_failure same = true
is_end run_canceled same = true
is_end _ same = false

unfoldable pub ends_step : String → String → Event → Bool
ends_step run step event =
    event.run_id == run && is_end event.event_type (event.step_key == some step)

abbrev pub entry_ends_step : String → String → Option Event → Bool
entry_ends_step run step none = false
entry_ends_step run step (some event) = ends_step run step event

module _ {E W : Type 0} (backend : Backend E W) (run step id : String) where
  abbrev Has : State W → Type 0
  Has s = step_run_id s.running run step ≡ some id

  handle_asset_event-Has :
      (type : EventType) (r : String) (time : ℕ) (a : AssetData) (s : State W)
      → Has s
      → Has (handle_asset_event backend type r time a s).1
  unfolding handle_asset_event asset_branch emit step_run_id
  handle_asset_event-Has type r time a s h =
      let p = or_else (get s.running r) (new_pipeline none) in
      let moved = get-promote r p s.running run in
      let add =
        get-put (promote r p s.running) r run
          (record p { planned_asset_paths = add_path a.path p.planned_asset_paths }) in
      let discard =
        get-put (promote r p s.running) r run
          (record p { planned_asset_paths = discard_path a.path p.planned_asset_paths }) in
      ground arith

  handle_step_event-Has :
      (type : EventType) (name r : String) (time : ℕ) (key : String) (repository : Option String)
      (s : State W)
      → (r == run && is_end type (key == step)) ≡ false
      → Has s
      → Has (handle_step_event backend type name r time key repository s).1
  unfolding handle_step_event step_branch emit step_run_id
  handle_step_event-Has type name r time key repository s goes h =
      let p = or_else (get s.running r) (new_pipeline repository) in
      let new = or_else (get p.running_steps key) (backend.make_step_run_id s.world).0 in
      let started =
        get-promote r (record p { running_steps = put p.running_steps key new }) s.running run in
      let ended =
        get-promote r (record p { running_steps = pop p.running_steps key }) s.running run in
      let moved = get-promote r p s.running run in
      let steps = get-put p.running_steps key step new in
      let gone = get-pop p.running_steps key step in ground arith

  handle_pipeline_event-Has :
      (type : EventType) (name r : String) (time : ℕ) (repository : Option String) (s : State W)
      → (r == run && is_end type false) ≡ false
      → Has s
      → Has (handle_pipeline_event backend type name r time repository s).1
  unfolding handle_pipeline_event emit step_run_id
  handle_pipeline_event-Has type name r time repository s goes h =
      let popped = get-pop s.running r run in
      let started = get-put s.running r run (new_pipeline repository) in ground arith

  drain_if_tracked-Has :
      (r : String) (time : ℕ) (o : Option RunningPipeline) (s : State W)
      → o ≡ get s.running r
      → Has s
      → Has (drain_if_tracked backend r time false o s).1
  unfolding drain_pipeline step_run_id
  drain_if_tracked-Has r time none s found h = h
  drain_if_tracked-Has r time (some p) s found h =
      let same =
        emit_all-running backend (λ path. asset_drained path r time) p.planned_asset_paths s in
      let drained = get-put s.running r run (record p { planned_asset_paths = [] }) in ground arith

  module _ (sets : EventSets) (process_asset : Bool) where
    dispatch_pipeline-Has :
        (event : Event) (repository : Option String) (s : State W)
        → ends_step run step event ≡ false
        → Has s
        → Has (dispatch_pipeline backend sets process_asset event repository s).1
    unfolding dispatch_pipeline drain_planned_as_failures ends_step
    dispatch_pipeline-Has event repository s goes h =
        let drained =
          drain_if_tracked-Has event.run_id event.timestamp (get s.running event.run_id) s refl h in
        let after_drain =
          handle_pipeline_event-Has event.event_type (or_else event.job_name "") event.run_id
            event.timestamp repository
            (drain_if_tracked backend event.run_id event.timestamp false
              (get s.running event.run_id) s).1 in
        let at_once =
          handle_pipeline_event-Has event.event_type (or_else event.job_name "") event.run_id
            event.timestamp repository s in
        ground arith

    dispatch_step_of-Has :
        (event : Event) (repository name key : Option String) (s : State W)
        → (event.run_id == run && is_end event.event_type (key == some step)) ≡ false
        → Has s
        → Has (dispatch_step_of backend sets process_asset event repository name key s).1
    dispatch_step_of-Has event repository (some name) (some key) s goes h =
        handle_step_event-Has event.event_type name event.run_id event.timestamp key repository s
          (ground arith) h
    dispatch_step_of-Has event repository none _ s goes h = h
    dispatch_step_of-Has event repository (some name) none s goes h = h

    dispatch-Has :
        (event : Event) (repository : Option String) (s : State W)
        → ends_step run step event ≡ false
        → Has s
        → Has (dispatch backend sets process_asset event repository s).1
    unfolding dispatch ends_step
    dispatch-Has event repository s goes h =
        let asset =
          handle_asset_event-Has event.event_type event.run_id event.timestamp event.asset s h in
        let pipeline = dispatch_pipeline-Has event repository s goes h in
        let step = dispatch_step_of-Has event repository event.job_name event.step_key s goes h in
        ground arith

    handle_entry-Has :
        (o : Option Event) (s : State W)
        → entry_ends_step run step o ≡ false
        → Has s
        → Has (handle_entry backend sets process_asset o s).1
    unfolding handle_event
    handle_entry-Has none s goes h = h
    handle_entry-Has (some event) s goes h =
        go (repository_name backend sets process_asset event.run_id s)
      where
        go :
            (repository : Result E (Option String))
            → Has (dispatch_if_known backend sets process_asset event repository s).1
        go (err raised) = h
        go (ok repository) = dispatch-Has event repository s goes h

    -- The run id that is kept of a step stays the same through any records of which none is the end of
    -- that step or of its run, whether or not the loop is stopped by an exception.
    pub step_run_id-process :
        (records : List Record) (last : ℕ) (s : State W)
        → All (λ r. entry_ends_step run step r.event ≡ false) records
        → step_run_id s.running run step ≡ some id
        → step_run_id (process backend sets process_asset records last s).state.running run step
          ≡ some id
    unfolding process handle_record
    step_run_id-process [] last s goes h = h
    step_run_id-process (r ∷ rs) last s goes h =
        let kept = handle_entry-Has r.event s goes.0 h in
        let later =
          step_run_id-process rs r.storage_id (handle_record backend sets process_asset r s).1
            goes.1 kept in
        ground arith

-- The world once the backend was told of an event of a step: an id is made before, used or not.
abbrev pub told : {E W : Type 0} → Backend E W → Emission → State W → W
told backend e s = (backend.emit e (backend.make_step_run_id s.world).1).1

module _ {E W : Type 0} (backend : Backend E W) (sets : EventSets) (process_asset : Bool)
    (name run step : String) (time later : ℕ) (repository repository_later : Option String) where
  step_start_told :
      (s : State W)
      → (handle_step_event backend step_start name run time step repository s).0 ≡ none
      → (id : String) × ((handle_step_event backend step_start name run time step repository
            s).1.world
          ≡ told backend (start_step name run time id step repository) s)
        × (step_run_id
              (handle_step_event backend step_start name run time step repository s).1.running
              run
              step
            ≡ some id)
  unfolding handle_step_event step_branch emit step_run_id
  step_start_told s h =
      let p = or_else (get s.running run) (new_pipeline repository) in
      let id = or_else (get p.running_steps step) (backend.make_step_run_id s.world).0 in
      let started =
        get-promote run (record p { running_steps = put p.running_steps step id }) s.running run in
      let kept = get-put p.running_steps step step id in (id, ground arith, ground arith)

  step_success_told :
      (s : State W) (id : String)
      → step_run_id s.running run step ≡ some id
      → (handle_step_event backend step_success name run later step repository_later s).1.world
        ≡ told backend (complete_step name run later id step repository_later) s
  unfolding handle_step_event step_branch emit step_run_id
  step_success_told s id h = ground arith

  -- A step that started, without an exception, is told to have succeeded with the run id that it was
  -- told to have started with, if no record in between was the end of the step or of its run. The
  -- records in between may be any others, and their handling may have raised.
  pub step_told :
      (s : State W) (records : List Record) (last : ℕ)
      → (handle_step_event backend step_start name run time step repository s).0 ≡ none
      → All (λ r. entry_ends_step run step r.event ≡ false) records
      → let t = (handle_step_event backend step_start name run time step repository s).1 in
        let u = (process backend sets process_asset records last t).state in
        (id : String) × (t.world ≡ told backend (start_step name run time id step repository) s)
        × ((handle_step_event backend step_success name run later step repository_later u).1.world
            ≡ told backend (complete_step name run later id step repository_later) u)
  step_told s records last started others =
      let t = (handle_step_event backend step_start name run time step repository s).1 in
      let u = (process backend sets process_asset records last t).state in
      let (id, told_start, kept) = step_start_told s started in
      let still =
        step_run_id-process backend run step id sets process_asset records last t others kept in
      (id, told_start, step_success_told u id still)
