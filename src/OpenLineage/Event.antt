-- ===== src/OpenLineage/Event.antt =====
-- The events of Dagster's log as the library reads them, and the calls that it makes of its adapter.
use community_integrations.Base.{ℕ, Bool, String, List, Option, Eq, string_eq}

-- `DagsterEventType`, with `other_event` for the types that the library does not name.
pub data EventType : Type 0 where
  run_start run_success run_failure run_canceled : EventType
  step_start step_success step_failure : EventType
  materialization_planned materialization failed_to_materialize observation : EventType
  check_planned check : EventType
  other_event : String → EventType

EventType-discrete : Discrete EventType
unfolding string_eq
EventType-discrete = hlevel string_eq.dec

instance unfoldable pub event_type_eq : Eq EventType
unfolding EventType-discrete
event_type_eq = record { dec = EventType-discrete }

-- An asset key, by its path.
abbrev pub AssetPath : Type 0
AssetPath = List String

-- An error that an event carries: its `message` if that is a text, and the error as a text.
pub record ErrorInfo : Type 0 where
  pub message : Option String
  pub shown : String

-- What an asset event says. Its fields are handed to the adapter as they are.
pub record AssetData : Type 0 where
  pub path : AssetPath
  pub partition : Option String
  pub metadata : String
  pub check_name : String
  pub error : Option ErrorInfo

pub record Event : Type 0 where
  pub event_type : EventType
  pub run_id : String
  pub job_name : Option String
  pub step_key : Option String
  pub timestamp : ℕ
  pub asset : AssetData

-- A record of the log; an entry may be none of Dagster's own events.
pub record Record : Type 0 where
  pub storage_id : ℕ
  pub event : Option Event

-- The calls of `OpenLineageAdapter`. The run, the time and the repository follow what is told.
pub data Emission : Type 0 where
  start_pipeline complete_pipeline fail_pipeline cancel_pipeline :
      String → String → ℕ → Option String → Emission
  -- job, run, time, step run id, step key, repository
  start_step complete_step fail_step :
      String → String → ℕ → String → String → Option String → Emission
  asset_planned : AssetPath → String → ℕ → Emission
  asset_materialized asset_observed : AssetPath → String → ℕ → String → Option String → Emission
  -- with the partition; and with the error that the drain makes up
  asset_failed : AssetPath → String → ℕ → Option String → Emission
  asset_drained : AssetPath → String → ℕ → Emission
  -- with `standalone`
  asset_check_planned : AssetPath → String → String → ℕ → Bool → Emission
  asset_check : AssetData → String → ℕ → Emission
