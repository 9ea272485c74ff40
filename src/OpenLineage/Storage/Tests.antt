-- ===== src/OpenLineage/Storage/Tests.antt =====
-- The wrapper round a storage that takes three events, with backends that fail at one of them or at none.
use community_integrations.Base.{
  ◌≡◌, ◌⊎◌, Bool, true, false, String, refl, ℕ, zero, suc, ◌+◌, List, [], ◌∷◌, ◌++◌, string_eq,
  list_eq, Option, none, some, arith,
}
use community_integrations.Base.Action.{for_each}
use community_integrations.Base.Dict.{get, put, pop}
use community_integrations.Base.Lists.{keep}
use community_integrations.OpenLineage.Event.{
  Event, materialization_planned, materialization, step_failure, observation,
}
use community_integrations.OpenLineage.Tick.Model.{event}
use community_integrations.OpenLineage.Sensor.{add_path, discard_path}
use community_integrations.OpenLineage.Storage.{
  Call, call_planned, call_observation, call_drained, Wrapper, tell, drain, dispatch_event,
  dispatch_entry, store_event, store_event_batch, track, change,
}
use community_integrations.OpenLineage.Storage.Laws.{
  accepted, IsTransparent, IsAborted, store_event_batch-IsTransparent,
}
use community_integrations.OpenLineage.Storage.Runs.{Runs, calls_for_all, runs_after_all}
use community_integrations.OpenLineage.Storage.Step.{send_all}
use community_integrations.OpenLineage.Storage.Told.{store_event_batch-told}
use community_integrations.OpenLineage.Storage.Bounds.{IsBounded, store_event_batch-IsBounded}

data Fault : Type 0 where
  full unreachable interrupt : Fault

abbrev is_exception : Fault → Bool
is_exception interrupt = false
is_exception _ = true

-- How many events the storage still takes, and how many it has.
record Log : Type 0 where
  room : ℕ
  stored : ℕ

put_in : ℕ → Log → Option Fault × Log
put_in zero log = (some full, log)
put_in (suc room) log = (none, record { room = room; stored = log.stored + 1 })

unfoldable store : Option Event → Log → Option Fault × Log
unfolding put_in
store entry log = put_in log.room log

-- The backend keeps what it is told, but no observation.
unfoldable send : Call → List Call → Option Fault × List Call
send (call_observation path run time metadata partition) log = (some unreachable, log)
send call log = (none, log ++ call ∷ [])

abbrev entries : List (Option Event)
entries =
    (event materialization_planned 1).event
    ∷ (event observation 2).event
    ∷ (event step_failure 3).event
    ∷ (event materialization 4).event
    ∷ []

abbrev start : Wrapper Log (List Call)
start = record {
  log = record { room = 3; stored = 0 };
  memory = record { planned = []; world = [] };
}

outcome :
    ((store_event_batch is_exception store send entries start).0 ≡ some full)
    × ((store_event_batch is_exception store send entries start).1.memory.world
        ≡ call_planned ("orders" ∷ []) "r1" 1 ∷ call_drained ("orders" ∷ []) "r1" 3 ∷ [])
unfolding store_event_batch store_event store put_in send for_each tell drain dispatch_event
    dispatch_entry track change get put pop add_path discard_path keep string_eq list_eq
outcome = (refl, refl)

-- The process is stopped while the second event is told: it is stored, and the third is not.
unfoldable stop : Call → List Call → Option Fault × List Call
stop (call_observation path run time metadata partition) log = (some interrupt, log)
stop call log = (none, log ++ call ∷ [])

stopped :
    ((store_event_batch is_exception store stop entries start).0 ≡ some interrupt)
    × ((store_event_batch is_exception store stop entries start).1.log.stored ≡ 2)
unfolding store_event_batch store_event store put_in stop for_each tell drain dispatch_event
    dispatch_entry track change get put pop add_path discard_path keep string_eq list_eq
stopped = (refl, refl)

store_event_batch-IsTransparent_example :
    let r = store_event_batch is_exception store stop entries start in
    IsTransparent is_exception store stop entries start r
    ⊎ IsAborted is_exception store stop entries start r
store_event_batch-IsTransparent_example =
    store_event_batch-IsTransparent is_exception store stop entries start

-- The backend keeps what it is told.
abbrev keep_call : Call → List Call → Option Fault × List Call
keep_call call log = (none, log ++ call ∷ [])

store_event_batch-told_example :
    let m = (store_event_batch is_exception store keep_call entries start).1.memory in
    let events = accepted store entries start.log in
    let runs : Runs = λ run. get start.memory.planned run in
    (m.world ≡ send_all keep_call (calls_for_all events runs) start.memory.world)
    × ((run : String) → get m.planned run ≡ runs_after_all events runs run)
store_event_batch-told_example =
    store_event_batch-told keep_call (λ call w. refl) is_exception store entries start (omega arith)

store_event_batch-IsBounded_example :
    IsBounded (store_event_batch is_exception store send entries start).1.memory.planned
store_event_batch-IsBounded_example =
    store_event_batch-IsBounded is_exception store send entries start (tt, omega arith)
