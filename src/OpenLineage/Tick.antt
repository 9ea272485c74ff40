-- ===== src/OpenLineage/Tick.antt =====
-- `openlineage_sensor` of sensor.py: one evaluation of the sensor, from a cursor to the next one.
-- The sets of events are Dagster's; the text that a cursor is stored as is left out.
pub mod Progress
pub mod Preserved
pub mod Planned
pub mod Steps
pub mod Quiet
pub mod Model
mod Tests
pub mod Cursor
use community_integrations.Base.{
  ℕ, ◌-◌, ◌&&◌, not, Bool, true, false, String, string_eq, List, [], ◌∷◌, ◌++◌, Option, none, some,
  ◌==◌, contains, if◌then◌else◌, Result, ok, err,
}
use community_integrations.Base.Action.{Action, skip, ◌>>◌}
use community_integrations.Base.Dict.{get}
use community_integrations.Base.Lists.{length, ltb, drop, dedup}
use community_integrations.OpenLineage.Event.{
  EventType, event_type_eq, run_success, run_failure, run_canceled, materialization_planned,
  materialization, failed_to_materialize, observation, check_planned, check, Event, Record,
}
use community_integrations.OpenLineage.Fetch.{Query, get_event_log_records}
use community_integrations.OpenLineage.Repository.{get_repository_name}
use community_integrations.OpenLineage.Sensor.{
  Running, RunningPipeline, OpenLineageCursor, Backend, State, or_else, handle_pipeline_event,
  handle_step_event, handle_asset_event, drain_planned_as_failures,
}

-- `PIPELINE_EVENTS` and `STEP_EVENTS`
pub record EventSets : Type 0 where
  pub pipeline_events : List EventType
  pub step_events : List EventType

-- `_ASSET_EVENT_TYPES`
abbrev pub asset_event_types : List EventType
asset_event_types =
    materialization ∷ materialization_planned ∷ failed_to_materialize ∷ observation ∷ check
    ∷ check_planned ∷ []

-- `_ASSET_ONLY_FILTER_EXTRAS`
abbrev pub asset_only_filter_extras : List EventType
asset_only_filter_extras = materialization_planned ∷ failed_to_materialize ∷ check_planned ∷ []

-- `_RUN_TERMINATION_TYPES`
abbrev pub run_termination_types : List EventType
run_termination_types = run_success ∷ run_failure ∷ run_canceled ∷ []

-- `_MAX_CURSOR_RUNNING_PIPELINES`
abbrev pub max_cursor_running_pipelines : ℕ
max_cursor_running_pipelines = 1000

-- `concerned_event_types`, where the caller gave none.
unfoldable pub default_event_types : EventSets → Bool → List EventType
default_event_types sets include_asset_events =
    let filter_set = sets.pipeline_events ++ sets.step_events in
    dedup (if include_asset_events then filter_set ++ asset_only_filter_extras else filter_set)

-- `_process_asset`; `wrapped` is the test whether the storage is the wrapper, or `none` where that
-- raised.
unfoldable pub process_asset_of : Bool → Option Bool → Bool
process_asset_of include_asset_events none = include_asset_events
process_asset_of include_asset_events (some wrapped) = include_asset_events && not wrapped

-- `_update_cursor`: the oldest entries go.
unfoldable pub evict : Running → Running
evict running =
    if ltb max_cursor_running_pipelines (length running)
    then drop (length running - max_cursor_running_pipelines) running
    else running

module _ {E W : Type 0} (backend : Backend E W) (sets : EventSets) (process_asset : Bool) where
  -- `running_pipeline.repository_name if running_pipeline else get_repository_name(…)`
  unfoldable pub repository_name : String → State W → Result E (Option String)
  repository_name run s = elim (get s.running run) [
    | some p ↦ ok p.repository_name
    | none ↦ get_repository_name (backend.get_run_by_id run s.world)
  ]

  -- The branch for `PIPELINE_EVENTS`.
  unfoldable pub dispatch_pipeline : Event → Option String → Action E (State W)
  dispatch_pipeline event repository =
      (if process_asset && contains run_termination_types event.event_type
        then drain_planned_as_failures backend event.run_id event.timestamp false
        else skip)
      >> handle_pipeline_event backend event.event_type (or_else event.job_name "") event.run_id
          event.timestamp repository

  -- The branch for `STEP_EVENTS`: an event without a job or a step is passed over.
  abbrev pub dispatch_step_of :
      Event → Option String → Option String → Option String → Action E (State W)
  dispatch_step_of event repository (some name) (some step) =
      handle_step_event backend event.event_type name event.run_id event.timestamp step repository
  dispatch_step_of event repository _ _ = skip

  unfoldable pub dispatch : Event → Option String → Action E (State W)
  dispatch event repository =
      if process_asset && contains asset_event_types event.event_type
      then handle_asset_event backend event.event_type event.run_id event.timestamp event.asset
      else if contains sets.pipeline_events event.event_type
      then dispatch_pipeline event repository
      else if contains sets.step_events event.event_type
      then dispatch_step_of event repository event.job_name event.step_key
      else skip

  -- The body of the `try`, which begins with the repository.
  abbrev pub dispatch_if_known : Event → Result E (Option String) → Action E (State W)
  dispatch_if_known event (err raised) s = (some raised, s)
  dispatch_if_known event (ok repository) s = dispatch event repository s

  unfoldable pub handle_event : Event → Action E (State W)
  handle_event event s = dispatch_if_known event (repository_name event.run_id s) s

  -- An entry that is not one of Dagster's events is passed over.
  abbrev pub handle_entry : Option Event → Action E (State W)
  handle_entry none = skip
  handle_entry (some event) = handle_event event

  unfoldable pub handle_record : Record → Action E (State W)
  handle_record r = handle_entry r.event

  -- What the loop has when it ends: the exception, the last record that it got through, the state.
  pub record Outcome : Type 0 where
    pub raised_exception : Option E
    pub last_storage_id : ℕ
    pub state : State W

  -- The loop over the records.
  unfoldable pub process : List Record → ℕ → State W → Outcome
  process [] last s = record { raised_exception = none; last_storage_id = last; state = s }
  process (r ∷ rs) last s =
      let (raised, t) = handle_record r s in
      let rest = process rs r.storage_id t in
      elim raised [
        | some e ↦ record { raised_exception = some e; last_storage_id = last; state = t }
        | none ↦ rest
      ]

  -- `_openlineage_sensor`: what it raised inside, the cursor that it stores, and the world.
  unfoldable pub tick :
      Query → List EventType → ℕ → OpenLineageCursor → W → Option E × OpenLineageCursor × W
  tick get_event_records types limit cursor world =
      let records = get_event_log_records get_event_records types cursor.last_storage_id limit in
      let done =
        process records cursor.last_storage_id
          (record { running = cursor.running_pipelines; world = world }) in
      (
        done.raised_exception,
        record {
          last_storage_id = done.last_storage_id;
          running_pipelines = evict done.state.running;
        },
        done.state.world,
      )

-- The arguments of `openlineage_sensor`.
pub record Config : Type 0 where
  pub concerned_event_types : Option (List EventType)
  pub record_filter_limit : Option ℕ
  pub after_storage_id : Option ℕ
  pub include_asset_events : Bool

-- The cursor that is stored, or the first one.
unfoldable pub cursor_or_first : Config → Option OpenLineageCursor → OpenLineageCursor
cursor_or_first config stored =
    or_else stored
      (record { last_storage_id = or_else config.after_storage_id 0; running_pipelines = [] })

module _ {E W : Type 0} (backend : Backend E W) (sets : EventSets) where
  -- `openlineage_sensor`, with the test whether the storage is the wrapper.
  unfoldable pub openlineage_sensor :
      Config → Option Bool → Query → Option OpenLineageCursor → W → Option E × OpenLineageCursor × W
  openlineage_sensor config wrapped get_event_records stored world =
      tick backend sets (process_asset_of config.include_asset_events wrapped) get_event_records
        (or_else config.concerned_event_types
          (default_event_types sets config.include_asset_events))
        (or_else config.record_filter_limit 0) (cursor_or_first config stored) world
