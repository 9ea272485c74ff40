-- ===== src/OpenLineage/Storage.antt =====
-- storage.py: an event log storage round another, which tells the backend of the asset events that
-- the other has stored. Each method that it does not override is the other's own. The lock is left
-- out, for a method's calls are taken one after another.
pub mod Laws
pub mod Runs
pub mod Step
pub mod Told
pub mod Bounds
mod Tests
use community_integrations.Base.{
  ℕ, not, Bool, true, false, String, string_eq, List, [], ◌∷◌, ◌++◌, Option, none, some, contains,
  if◌then◌else◌,
}
use community_integrations.Base.Action.{Action, skip, after, ◌>>◌, for_each}
use community_integrations.Base.Dict.{Dict, get, put, pop, keys}
use community_integrations.Base.Lists.{length, leb, drop}
use community_integrations.OpenLineage.Event.{
  EventType, materialization_planned, materialization, failed_to_materialize, observation,
  check_planned, check, run_success, run_failure, run_canceled, step_failure, AssetPath, ErrorInfo,
  AssetData, Event,
}
use community_integrations.OpenLineage.Sensor.{add_path, discard_path}

-- `_planned_assets`
abbrev pub Planned : Type 0
Planned = Dict String (List AssetPath)

-- `_MAX_SYNTHESIS_RUNS`
abbrev pub max_synthesis_runs : ℕ
max_synthesis_runs = 1000

-- The calls of the adapter, with a run and a time. All have the same run tags, which are empty.
pub data Call : Type 0 where
  call_planned : AssetPath → String → ℕ → Call
  call_materialization call_observation : AssetPath → String → ℕ → String → Option String → Call
  -- with the message of the error and the partition; and with the message that the drain makes up
  call_failed : AssetPath → String → ℕ → Option String → Option String → Call
  call_drained : AssetPath → String → ℕ → Call
  -- with `standalone`
  call_check_planned : AssetPath → String → String → ℕ → Bool → Call
  call_check : AssetData → String → ℕ → Call

-- `_format_error_message`
unfoldable pub format_error_message : Option ErrorInfo → Option String
format_error_message none = none
format_error_message (some error) = elim error.message [
  | some message ↦ some message
  | none ↦ some error.shown
]

-- What an event changes beside the log: the planned assets, and the world of the backend.
pub record Memory (W : Type 0) : Type 0 where
  pub planned : Planned
  pub world : W

-- The entry of a run that plans an asset goes to the end, and the oldest one may make room for it.
unfoldable pub track : String → Planned → Planned
track run planned = elim (get planned run) [
  | none ↦
      (if leb max_synthesis_runs (length planned) then drop 1 planned else planned)
      ++ (run, []) ∷ []
  | some paths ↦ pop planned run ++ (run, paths) ∷ []
]

-- What is done with the set of a run, if it has one.
unfoldable pub change : String → (List AssetPath → List AssetPath) → Planned → Planned
change run f planned = elim (get planned run) [
  | none ↦ planned
  | some paths ↦ put planned run (f paths)
]

abbrev pub paths_of : Option (List AssetPath) → List AssetPath
paths_of none = []
paths_of (some paths) = paths

module _ {E W : Type 0} (emit : Call → Action E W) where
  unfoldable pub tell : Call → Action E (Memory W)
  tell call m = let (raised, w) = emit call m.world in (raised, record m { world = w })

  abbrev pub replan : (Planned → Planned) → Action E (Memory W)
  replan f m = (none, record m { planned = f m.planned })

  -- `_drain_planned_as_failures`
  unfoldable pub drain : String → ℕ → Action E (Memory W)
  drain run time m =
      (replan (λ planned. pop planned run)
          >> for_each (λ path. tell (call_drained path run time)) (paths_of (get m.planned run)))
        m

  -- The branches of `_dispatch`.
  unfoldable pub dispatch_event : EventType → String → ℕ → AssetData → Action E (Memory W)
  unfolding drain
  dispatch_event materialization_planned run time a =
      replan (λ planned. change run (add_path a.path) (track run planned))
      >> tell (call_planned a.path run time)
  dispatch_event materialization run time a =
      replan (change run (discard_path a.path))
      >> tell (call_materialization a.path run time a.metadata a.partition)
  dispatch_event failed_to_materialize run time a =
      replan (change run (discard_path a.path))
      >> tell (call_failed a.path run time (format_error_message a.error) a.partition)
  dispatch_event observation run time a =
      tell (call_observation a.path run time a.metadata a.partition)
  dispatch_event check_planned run time a = λ m.
      tell (call_check_planned a.path a.check_name run time (not (contains (keys m.planned) run))) m
  dispatch_event check run time a = tell (call_check a run time)
  dispatch_event run_failure run time a = drain run time
  dispatch_event step_failure run time a = drain run time
  dispatch_event run_success run time a = replan (λ planned. pop planned run)
  dispatch_event run_canceled run time a = replan (λ planned. pop planned run)
  dispatch_event _ run time a = skip

  -- `_dispatch`, on an entry that may be none of Dagster's own events.
  unfoldable pub dispatch_entry : Option Event → Action E (Memory W)
  dispatch_entry none = skip
  dispatch_entry (some event) =
      dispatch_event event.event_type event.run_id event.timestamp event.asset

-- The other storage's log beside the memory.
pub record Wrapper (L W : Type 0) : Type 0 where
  pub log : L
  pub memory : Memory W

-- What `except Exception` lets through: a `BaseException` that is no `Exception`.
abbrev pub uncaught : {E : Type 0} → (E → Bool) → Option E → Option E
uncaught is_exception none = none
uncaught is_exception (some e) = if is_exception e then none else some e

module _ {E L W : Type 0} (is_exception : E → Bool) (store : Option Event → Action E L)
    (emit : Call → Action E W) where
  -- `store_event`, once the other storage has the event or has refused it.
  abbrev pub dispatched : Option Event → Option E × Wrapper L W → Option E × Wrapper L W
  dispatched entry (some e, s) = (some e, s)
  dispatched entry (none, s) =
      let (raised, m) = dispatch_entry emit entry s.memory in
      (uncaught is_exception raised, record s { memory = m })

  unfoldable pub store_event : Option Event → Action E (Wrapper L W)
  store_event entry s =
      let (raised, log) = store entry s.log in dispatched entry (raised, record s { log = log })

  -- `store_event_batch`
  unfoldable pub store_event_batch : List (Option Event) → Action E (Wrapper L W)
  store_event_batch entries = for_each store_event entries
