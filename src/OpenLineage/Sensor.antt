-- ===== src/OpenLineage/Sensor.antt =====
-- sensor.py, utils.py and cursor.py: the sensor that tails the event log and keeps, in its cursor,
-- the runs that it has seen begin and not end. The adapter, the instance and the making of ids are
-- parameters.
pub mod Writes
use community_integrations.Base.{
  ℕ, suc, ◌+◌, ◌-◌, ◌≡◌, not, ◌&&◌, Bool, true, false, String, List, [], ◌∷◌, ◌++◌, Option, none,
  some, ◌==◌, contains, Eq, string_eq, list_eq, if◌then◌else◌, Result, ok, err,
}
use community_integrations.Base.Action.{Action, skip, modify, after, ◌>>◌, for_each}
use community_integrations.Base.Dict.{Dict, get, put, pop}
use community_integrations.Base.Lists.{length, ltb, keep, drop}
use community_integrations.OpenLineage.Repository.{DagsterRun}
use community_integrations.OpenLineage.Event.{
  EventType, run_start, run_success, run_failure, run_canceled, step_start, step_success,
  step_failure, materialization_planned, materialization, failed_to_materialize, observation,
  check_planned, check, other_event, AssetPath, AssetData, Event, Record, Emission, start_pipeline,
  complete_pipeline, fail_pipeline, cancel_pipeline, start_step, complete_step, fail_step,
  asset_planned, asset_materialized, asset_observed, asset_failed, asset_drained,
  asset_check_planned, asset_check,
}

-- Steps by their key, each with its run id; the lists of datasets beside it are never written. A set
-- of paths is a list in which a path stands once.
pub record RunningPipeline : Type 0 where
  pub running_steps : Dict String String
  pub repository_name : Option String
  pub planned_asset_paths : List AssetPath

abbrev pub Running : Type 0
Running = Dict String RunningPipeline

pub record OpenLineageCursor : Type 0 where
  pub last_storage_id : ℕ
  pub running_pipelines : Running

-- What the sensor calls: the adapter's methods, the instance's look-up of a run and
-- `make_step_run_id`, over the world `W` that they change.
pub record Backend (E W : Type 0) : Type 0 where
  pub emit : Emission → W → Option E × W
  pub get_run_by_id : String → W → Result E (Option DagsterRun)
  pub make_step_run_id : W → String × W

-- What the handlers change.
pub record State (W : Type 0) : Type 0 where
  pub running : Running
  pub world : W

abbrev pub new_pipeline : Option String → RunningPipeline
new_pipeline repository = record {
  running_steps = [];
  repository_name = repository;
  planned_asset_paths = [];
}

abbrev pub or_else {ℓ} : {A : Type ℓ} → Option A → A → A
or_else none d = d
or_else (some a) d = a

-- `s.add(p)` and `s.discard(p)`
unfoldable pub add_path : AssetPath → List AssetPath → List AssetPath
add_path p s = if contains s p then s else s ++ p ∷ []

unfoldable pub discard_path : AssetPath → List AssetPath → List AssetPath
discard_path p s = keep (λ q. not (p == q)) s

-- `running.pop(run, None); running[run] = pipeline`: the run is now the most recently used.
unfoldable pub promote : String → RunningPipeline → Running → Running
promote run pipeline running = pop running run ++ (run, pipeline) ∷ []

module _ {E W : Type 0} (backend : Backend E W) where
  unfoldable pub emit : Emission → Action E (State W)
  emit e s = let (raised, w) = backend.emit e s.world in (raised, record s { world = w })

  abbrev pub update : (Running → Running) → Action E (State W)
  update f = modify (λ s. record s { running = f s.running })

  -- `running_pipelines.setdefault(run, …)`
  abbrev pub set_default : String → RunningPipeline → Running → Running
  set_default run pipeline running = elim (get running run) [
    | none ↦ put running run pipeline
    | some _ ↦ running
  ]

  -- `_handle_pipeline_event`
  unfoldable pub handle_pipeline_event :
      EventType → String → String → ℕ → Option String → Action E (State W)
  handle_pipeline_event run_start name run time repository =
      emit (start_pipeline name run time repository)
      >> update (set_default run (new_pipeline repository))
  handle_pipeline_event run_success name run time repository =
      emit (complete_pipeline name run time repository) >> update (λ running. pop running run)
  handle_pipeline_event run_failure name run time repository =
      emit (fail_pipeline name run time repository) >> update (λ running. pop running run)
  handle_pipeline_event run_canceled name run time repository =
      emit (cancel_pipeline name run time repository) >> update (λ running. pop running run)
  handle_pipeline_event _ name run time repository = skip

  -- The branches of `_handle_step_event`, on the pipeline and the step's run id; the promotion
  -- comes after whichever was taken.
  unfoldable pub step_branch :
      EventType
      → String
      → String
      → ℕ
      → String
      → Option String
      → RunningPipeline
      → String
      → Action E (State W)
  step_branch step_start name run time step repository p id =
      emit (start_step name run time id step repository)
      >> update (promote run (record p { running_steps = put p.running_steps step id }))
  step_branch step_success name run time step repository p id =
      emit (complete_step name run time id step repository)
      >> update (promote run (record p { running_steps = pop p.running_steps step }))
  step_branch step_failure name run time step repository p id =
      emit (fail_step name run time id step repository)
      >> update (promote run (record p { running_steps = pop p.running_steps step }))
  step_branch _ name run time step repository p id = update (promote run p)

  -- The pipeline of a run, or a new one; and the run id of a step, or the new one `id`.
  abbrev pub pipeline_of : Running → String → Option String → RunningPipeline
  pipeline_of running run repository = or_else (get running run) (new_pipeline repository)

  abbrev pub step_id : RunningPipeline → String → String → String
  step_id p step id = or_else (get p.running_steps step) id

  -- `_handle_step_event`. An id is made whether or not it is used.
  unfoldable pub handle_step_event :
      EventType → String → String → ℕ → String → Option String → Action E (State W)
  handle_step_event type name run time step repository s =
      let p = pipeline_of s.running run repository in
      let (id, w) = backend.make_step_run_id s.world in
      step_branch type name run time step repository p (step_id p step id) (record s { world = w })

  -- The branches of `_handle_asset_event`, once the run's entry is in its new place.
  abbrev planned : String → (List AssetPath → List AssetPath) → RunningPipeline → Action E (State W)
  planned run f p =
      update
        (λ running. put running run (record p { planned_asset_paths = f p.planned_asset_paths }))

  unfoldable pub asset_branch :
      EventType → String → ℕ → AssetData → RunningPipeline → Action E (State W)
  asset_branch materialization_planned run time a p =
      planned run (add_path a.path) p >> emit (asset_planned a.path run time)
  asset_branch materialization run time a p =
      planned run (discard_path a.path) p
      >> emit (asset_materialized a.path run time a.metadata a.partition)
  asset_branch failed_to_materialize run time a p =
      planned run (discard_path a.path) p >> emit (asset_failed a.path run time a.partition)
  asset_branch observation run time a p =
      emit (asset_observed a.path run time a.metadata a.partition)
  asset_branch check_planned run time a p =
      emit (asset_check_planned a.path a.check_name run time true)
  asset_branch check run time a p = emit (asset_check a run time)
  asset_branch _ run time a p = skip

  -- `_handle_asset_event`
  unfoldable pub handle_asset_event : EventType → String → ℕ → AssetData → Action E (State W)
  handle_asset_event type run time a s =
      let p = or_else (get s.running run) (new_pipeline none) in
      (update (promote run p) >> asset_branch type run time a p) s

  -- `_drain_planned_as_failures`, on the pipeline of the run.
  unfoldable pub drain_pipeline : String → ℕ → Bool → RunningPipeline → Action E (State W)
  drain_pipeline run time terminal p =
      for_each (λ path. emit (asset_drained path run time)) p.planned_asset_paths
      >> update (λ running. put running run (record p { planned_asset_paths = [] }))
      >> (if terminal then update (λ running. pop running run) else skip)

  abbrev pub drain_if_tracked : String → ℕ → Bool → Option RunningPipeline → Action E (State W)
  drain_if_tracked run time terminal none = skip
  drain_if_tracked run time terminal (some p) = drain_pipeline run time terminal p

  unfoldable pub drain_planned_as_failures : String → ℕ → Bool → Action E (State W)
  drain_planned_as_failures run time terminal s =
      drain_if_tracked run time terminal (get s.running run) s
