-- ===== src/OpenLineage/Tick/Model.antt =====
-- A backend that writes down what it is told, makes ids in turn, knows no run, and fails on request.
use community_integrations.Base.{
  ℕ, zero, suc, ◌+◌, List, [], ◌∷◌, ◌++◌, String, string_eq, true, Option, none, some, ok, ◌≡◌,
  contains, arith,
}
use community_integrations.OpenLineage.Event.{
  EventType, event_type_eq, run_start, run_success, run_failure, run_canceled, step_start,
  step_success, step_failure, materialization_planned, materialization, Record, AssetData, Emission,
}
use community_integrations.OpenLineage.Sensor.{Backend, State}
use community_integrations.OpenLineage.Tick.{EventSets, run_termination_types}
use community_integrations.OpenLineage.Fetch.{Query}

pub data Failure : Type 0 where
  unreachable : Failure

-- What was told, the ids that were made, and how many calls go through before one fails.
pub record World : Type 0 where
  pub log : List Emission
  pub made : ℕ
  pub working : ℕ

unfoldable pub emit_to : Emission → ℕ → World → Option Failure × World
emit_to e zero w = (some unreachable, w)
emit_to e (suc n) w = (none, record w { log = w.log ++ e ∷ []; working = n })

unfoldable pub id_of : ℕ → String
id_of zero = "step-0"
id_of (suc zero) = "step-1"
id_of (suc (suc n)) = "step-more"

unfoldable pub recorder : Backend Failure World
unfolding emit_to id_of
recorder = record {
  emit = λ e w. emit_to e w.working w;
  get_run_by_id = λ run w. ok none;
  make_step_run_id = λ w. (id_of w.made, record w { made = w.made + 1 });
}

abbrev pub dagster : EventSets
dagster = record {
  pipeline_events = run_start ∷ run_success ∷ run_failure ∷ run_canceled ∷ [];
  step_events = step_start ∷ step_success ∷ step_failure ∷ materialization ∷ [];
}

pub dagster_terminations :
    (t : EventType)
    → contains run_termination_types t ≡ true
    → contains dagster.pipeline_events t ≡ true
unfolding event_type_eq
dagster_terminations t h = ground arith

abbrev pub orders : AssetData
orders = record {
  path = "orders" ∷ [];
  partition = none;
  metadata = "";
  check_name = "";
  error = none;
}

abbrev pub event : EventType → ℕ → Record
event type at = record {
  storage_id = at;
  event = some (record {
    event_type = type;
    run_id = "r1";
    job_name = some "daily";
    step_key = some "load";
    timestamp = at;
    asset = orders;
  });
}

abbrev pub first : State World
first = record { running = []; world = record { log = []; made = 0; working = 100 } }

-- A run that plans an asset, starts a step and ends.
abbrev pub run_records : List Record
run_records =
    event run_start 1
    ∷ event materialization_planned 2
    ∷ event step_start 3
    ∷ event step_success 4
    ∷ event run_failure 5
    ∷ []

abbrev pub query : Query
query materialization_planned after limit = event materialization_planned 2 ∷ []
query run_start after limit = event run_start 1 ∷ []
query _ after limit = []
