-- ===== src/OpenLineage/Tick/Preserved.antt =====
-- What holds of the tracked runs and is kept by each way in which the handlers write them holds
-- after a tick.
use community_integrations.Base.{
  ℕ, arith, List, [], ◌∷◌, Bool, true, false, String, string_eq, Option, none, some, contains,
  if◌then◌else◌, ◌&&◌, Result, ok, err,
}
use community_integrations.Base.Action.{Action, ◌>>◌}
use community_integrations.Base.Dict.{get, put, pop}
use community_integrations.OpenLineage.Event.{
  EventType, event_type_eq, AssetData, Event, Record, Emission, asset_drained,
}
use community_integrations.OpenLineage.Sensor.{
  Running, RunningPipeline, Backend, State, promote, handle_pipeline_event, step_branch,
  handle_step_event, asset_branch, handle_asset_event, drain_planned_as_failures, drain_pipeline,
  drain_if_tracked, emit, or_else, new_pipeline, add_path, discard_path,
}
use community_integrations.OpenLineage.Sensor.Writes.{emit_all-running}
use community_integrations.OpenLineage.Tick.{
  EventSets, run_termination_types, asset_event_types, dispatch_pipeline, dispatch_step_of,
  dispatch_if_known, dispatch, handle_event, handle_entry, handle_record, process,
}

-- The three ways: an entry is written, taken out, or moved to the end.
pub record IsKept (P : Running → Type 0) : Type 0 where
  pub putting : (run : String) (p : RunningPipeline) (r : Running) → P r → P (put r run p)
  pub popping : (run : String) (r : Running) → P r → P (pop r run)
  pub promoting : (run : String) (p : RunningPipeline) (r : Running) → P r → P (promote run p r)

module _ {E W : Type 0} (backend : Backend E W) (P : Running → Type 0) (kept : IsKept P) where
  abbrev Keeps : Action E (State W) → Type 0
  Keeps f = (s : State W) → P s.running → P (f s).1.running

  emit-Keeps : (e : Emission) → Keeps (emit backend e)
  unfolding emit
  emit-Keeps e s h = h

  -- Each of the ways, on the entries that the handlers write.
  handle_pipeline_event-Keeps :
      (type : EventType) (name run : String) (time : ℕ) (repository : Option String)
      → Keeps (handle_pipeline_event backend type name run time repository)
  unfolding handle_pipeline_event emit
  handle_pipeline_event-Keeps type name run time repository s h =
      ground (
        arith,
        kept.putting run (new_pipeline repository) s.running h,
        kept.popping run s.running h,
      )

  step_branch-Keeps :
      (type : EventType) (name run : String) (time : ℕ) (step : String) (repository : Option String)
      (p : RunningPipeline) (id : String)
      → Keeps (step_branch backend type name run time step repository p id)
  unfolding step_branch emit
  step_branch-Keeps type name run time step repository p id s h =
      let put_p =
        kept.promoting run (record p { running_steps = put p.running_steps step id }) s.running h in
      let pop_p =
        kept.promoting run (record p { running_steps = pop p.running_steps step }) s.running h in
      let same = kept.promoting run p s.running h in ground arith

  asset_branch-Keeps :
      (type : EventType) (run : String) (time : ℕ) (a : AssetData) (p : RunningPipeline)
      → Keeps (asset_branch backend type run time a p)
  unfolding asset_branch emit
  asset_branch-Keeps type run time a p s h =
      let added =
        kept.putting run (record p { planned_asset_paths = add_path a.path p.planned_asset_paths })
          s.running h in
      let discarded =
        kept.putting run
          (record p { planned_asset_paths = discard_path a.path p.planned_asset_paths }) s.running
          h in
      ground arith

  drain_pipeline-Keeps :
      (run : String) (time : ℕ) (p : RunningPipeline)
      → Keeps (drain_pipeline backend run time false p)
  unfolding drain_pipeline
  drain_pipeline-Keeps run time p s h =
      let same =
        emit_all-running backend (λ path. asset_drained path run time) p.planned_asset_paths s in
      let put_p = kept.putting run (record p { planned_asset_paths = [] }) s.running h in
      ground arith

  drain-Keeps :
      (run : String) (time : ℕ) (o : Option RunningPipeline)
      → Keeps (drain_if_tracked backend run time false o)
  drain-Keeps run time none s h = h
  drain-Keeps run time (some p) s h = drain_pipeline-Keeps run time p s h

  then-Keeps : (f g : Action E (State W)) → Keeps f → Keeps g → Keeps (f >> g)
  then-Keeps f g kf kg s h = let g_kept = kg (f s).1 (kf s h) in let f_kept = kf s h in ground arith

  if-Keeps : (b : Bool) (f g : Action E (State W)) → Keeps f → Keeps g → Keeps (if b then f else g)
  if-Keeps true f g kf kg = kf
  if-Keeps false f g kf kg = kg

  handle_asset_event-Keeps :
      (type : EventType) (run : String) (time : ℕ) (a : AssetData)
      → Keeps (handle_asset_event backend type run time a)
  unfolding handle_asset_event
  handle_asset_event-Keeps type run time a s h =
      let p = or_else (get s.running run) (new_pipeline none) in
      asset_branch-Keeps type run time a p (record s { running = promote run p s.running })
        (kept.promoting run p s.running h)

  handle_step_event-Keeps :
      (type : EventType) (name run : String) (time : ℕ) (step : String) (repository : Option String)
      → Keeps (handle_step_event backend type name run time step repository)
  unfolding handle_step_event
  handle_step_event-Keeps type name run time step repository s h =
      step_branch-Keeps type name run time step repository _ _ _ h

  dispatch_step_of-Keeps :
      (sets : EventSets) (process_asset : Bool) (event : Event)
      (repository name step : Option String)
      → Keeps (dispatch_step_of backend sets process_asset event repository name step)
  dispatch_step_of-Keeps sets process_asset event repository (some name) (some step) =
      handle_step_event-Keeps event.event_type name event.run_id event.timestamp step repository
  dispatch_step_of-Keeps sets process_asset event repository none _ = λ s h. h
  dispatch_step_of-Keeps sets process_asset event repository (some name) none = λ s h. h

  dispatch-Keeps :
      (sets : EventSets) (process_asset : Bool) (event : Event) (repository : Option String)
      → Keeps (dispatch backend sets process_asset event repository)
  unfolding dispatch dispatch_pipeline drain_planned_as_failures
  dispatch-Keeps sets process_asset event repository =
      if-Keeps (process_asset && contains asset_event_types event.event_type) _ _
        (handle_asset_event-Keeps event.event_type event.run_id event.timestamp event.asset)
        (if-Keeps (contains sets.pipeline_events event.event_type) _ _
          (then-Keeps _ _
            (if-Keeps (process_asset && contains run_termination_types event.event_type) _ _
              (λ s. drain-Keeps event.run_id event.timestamp (get s.running event.run_id) s)
              (λ s h. h))
            (handle_pipeline_event-Keeps event.event_type (or_else event.job_name "") event.run_id
              event.timestamp repository))
          (if-Keeps (contains sets.step_events event.event_type) _ _
            (dispatch_step_of-Keeps sets process_asset event repository event.job_name
              event.step_key)
            (λ s h. h)))

  dispatch_if_known-Keeps :
      (sets : EventSets) (process_asset : Bool) (event : Event)
      (repository : Result E (Option String))
      → Keeps (dispatch_if_known backend sets process_asset event repository)
  dispatch_if_known-Keeps sets process_asset event (err raised) s h = h
  dispatch_if_known-Keeps sets process_asset event (ok repository) s h =
      dispatch-Keeps sets process_asset event repository s h

  handle_entry-Keeps :
      (sets : EventSets) (process_asset : Bool) (o : Option Event)
      → Keeps (handle_entry backend sets process_asset o)
  unfolding handle_event
  handle_entry-Keeps sets process_asset none s h = h
  handle_entry-Keeps sets process_asset (some event) s h =
      dispatch_if_known-Keeps sets process_asset event _ s h

  handle_record-Keeps :
      (sets : EventSets) (process_asset : Bool) (r : Record)
      → Keeps (handle_record backend sets process_asset r)
  unfolding handle_record
  handle_record-Keeps sets process_asset r = handle_entry-Keeps sets process_asset r.event

  pub process-Keeps :
      (sets : EventSets) (process_asset : Bool) (records : List Record) (last : ℕ) (s : State W)
      → P s.running
      → P (process backend sets process_asset records last s).state.running
  unfolding process
  process-Keeps sets process_asset [] last s h = h
  process-Keeps sets process_asset (r ∷ rs) last s h =
      let t = (handle_record backend sets process_asset r s).1 in
      let handled = handle_record-Keeps sets process_asset r s h in
      let rest = process-Keeps sets process_asset rs r.storage_id t handled in ground arith
