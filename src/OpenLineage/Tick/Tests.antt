-- ===== src/OpenLineage/Tick/Tests.antt =====
-- The sensor on the records of one run, and the theorems on it.
use mathlib.Core.Option.{some-injective}
use community_integrations.Base.{
  subst, false, some, ok, ◌++◌, ◌≡◌, refl, [], ◌∷◌, String, string_eq, list_eq, nat_eq, true, false,
  none,
}
use community_integrations.Base.Action.{for_each}
use community_integrations.Base.Dict.{NodupKeys, keys, get, put, pop}
use community_integrations.Base.Lists.{keep}
use community_integrations.OpenLineage.Event.{
  event_type_eq, run_start, step_start, step_success, materialization_planned, start_pipeline,
  asset_planned, start_step, complete_step, asset_drained, fail_pipeline,
}
use community_integrations.OpenLineage.Sensor.{
  Backend, State, OpenLineageCursor, new_pipeline, emit, promote, handle_pipeline_event,
  step_branch, handle_step_event, asset_branch, handle_asset_event, drain_pipeline,
  drain_planned_as_failures, add_path, discard_path,
}
use community_integrations.OpenLineage.Repository.{get_repository_name, repository_name_of}
use community_integrations.OpenLineage.Tick.{
  Config, process, handle_record, handle_event, repository_name, dispatch, dispatch_pipeline,
  openlineage_sensor, evict,
}
use community_integrations.OpenLineage.Tick.Cursor.{
  AreLatest, evict_recent, IsBounded, openlineage_sensor_cursor,
}
use community_integrations.OpenLineage.Tick.Planned.{is_planned, planned_after, process_planned}
use community_integrations.OpenLineage.Tick.Progress.{last_id, Progress, process-Progress}
use community_integrations.OpenLineage.Tick.Steps.{told, step_told, ends_step, entry_ends_step}
use community_integrations.OpenLineage.Tick.Quiet.{NeverRaises, process-NeverRaises}
use community_integrations.OpenLineage.Tick.Model.{
  Failure, World, recorder, emit_to, id_of, dagster, dagster_terminations, event, first,
  run_records, query,
}

told_of_run :
    (process recorder dagster true run_records 0 first).state.world.log
    ≡ start_pipeline "daily" "r1" 1 none
      ∷ asset_planned ("orders" ∷ []) "r1" 2
      ∷ start_step "daily" "r1" 3 "step-0" "load" none
      ∷ complete_step "daily" "r1" 4 "step-0" "load" none
      ∷ asset_drained ("orders" ∷ []) "r1" 5
      ∷ fail_pipeline "daily" "r1" 5 none
      ∷ []
unfolding process handle_record handle_event repository_name get_repository_name repository_name_of
    dispatch dispatch_pipeline handle_pipeline_event handle_asset_event handle_step_event
    asset_branch step_branch drain_pipeline drain_planned_as_failures add_path discard_path promote
    emit recorder emit_to id_of event_type_eq string_eq list_eq get put pop for_each keep
told_of_run = refl

-- The backend fails at the third call: the loop stops before the record that made it.
abbrev failing : State World
failing = record { running = []; world = record { log = []; made = 0; working = 2 } }

stopped :
    ((process recorder dagster true run_records 0 failing).last_storage_id ≡ 2)
    × (is_planned
          (process recorder dagster true run_records 0 failing).state.running
          "r1"
          ("orders" ∷ [])
        ≡ true)
unfolding process handle_record handle_event repository_name get_repository_name repository_name_of
    dispatch dispatch_pipeline handle_pipeline_event handle_asset_event handle_step_event
    asset_branch step_branch drain_pipeline drain_planned_as_failures add_path discard_path promote
    emit recorder emit_to id_of event_type_eq string_eq list_eq get put pop for_each keep is_planned
stopped = (refl, refl)

process-Progress_example :
    Progress recorder dagster true run_records 0 failing
      (process recorder dagster true run_records 0 failing)
process-Progress_example = process-Progress recorder dagster true run_records 0 failing

abbrev config : Config
config = record {
  concerned_event_types = some (run_start ∷ materialization_planned ∷ []);
  record_filter_limit = some 30;
  after_storage_id = some 0;
  include_asset_events = true;
}

abbrev stored : OpenLineageCursor
stored = record { last_storage_id = 0; running_pipelines = ("r0", new_pipeline none) ∷ [] }

stored_once : (c : OpenLineageCursor) → some stored ≡ some c → NodupKeys c.running_pipelines
unfolding keys
stored_once c h =
    subst (λ (d : OpenLineageCursor). NodupKeys d.running_pipelines) (some-injective stored c h)
      (refl, tt)

openlineage_sensor_cursor_example :
    IsBounded
      (openlineage_sensor recorder dagster config (some false) query (some stored) first.world).1
openlineage_sensor_cursor_example =
    openlineage_sensor_cursor recorder dagster config (some false) query (some stored) first.world
      stored_once

evict_recent_example :
    AreLatest (promote "r1" (new_pipeline none) []) (evict (promote "r1" (new_pipeline none) []))
evict_recent_example = evict_recent (promote "r1" (new_pipeline none) [])

raised_nothing : (process recorder dagster true run_records 0 first).raised_exception ≡ none
unfolding process handle_record handle_event repository_name get_repository_name repository_name_of
    dispatch dispatch_pipeline handle_pipeline_event handle_asset_event handle_step_event
    asset_branch step_branch drain_pipeline drain_planned_as_failures add_path discard_path promote
    emit recorder emit_to id_of event_type_eq string_eq list_eq get put pop for_each keep
raised_nothing = refl

process_planned_example :
    is_planned
      (process recorder dagster true run_records 0 first).state.running
      "r1"
      ("orders" ∷ [])
    ≡ planned_after "r1" ("orders" ∷ []) run_records (is_planned [] "r1" ("orders" ∷ []))
process_planned_example =
    process_planned recorder "r1" ("orders" ∷ []) dagster dagster_terminations run_records 0 first
      raised_nothing

start_raised_nothing :
    (handle_step_event recorder step_start "daily" "r1" 3 "load" none first).0 ≡ none
unfolding handle_step_event step_branch promote emit recorder emit_to id_of string_eq get put pop
start_raised_nothing = refl

between_is_other : entry_ends_step "r1" "load" (event materialization_planned 2).event ≡ false
unfolding ends_step string_eq
between_is_other = refl

abbrev started : State World
started = (handle_step_event recorder step_start "daily" "r1" 3 "load" none first).1

abbrev before_end : State World
before_end = (process recorder dagster true (event materialization_planned 2 ∷ []) 3 started).state

step_told_example :
    (id : String) × (started.world ≡ told recorder (start_step "daily" "r1" 3 id "load" none) first)
    × ((handle_step_event recorder step_success "daily" "r1" 9 "load" none before_end).1.world
        ≡ told recorder (complete_step "daily" "r1" 9 id "load" none) before_end)
step_told_example =
    step_told recorder dagster true "daily" "r1" "load" 3 9 none none first
      (event materialization_planned 2 ∷ []) 3 start_raised_nothing (between_is_other, tt)

-- A backend that takes whatever it is told.
patient : Backend Failure World
patient = record {
  emit = λ e w. (none, record w { log = w.log ++ e ∷ [] });
  get_run_by_id = λ run w. ok none;
  make_step_run_id = λ w. ("step", w);
}

patient-NeverRaises : NeverRaises patient
unfolding patient
patient-NeverRaises = record { emits = λ e w. refl; finds = λ run w. (none, refl) }

process-NeverRaises_example :
    ((process patient dagster true run_records 0 first).raised_exception ≡ none)
    × ((process patient dagster true run_records 0 first).last_storage_id ≡ last_id 0 run_records)
process-NeverRaises_example =
    process-NeverRaises patient patient-NeverRaises dagster true run_records 0 first
