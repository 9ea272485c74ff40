-- ===== src/OpenLineage/Storage/Told.antt =====
-- What a batch tells.
use community_integrations.Base.{
  ◌+◌, ◌≤◌, ◌≡◌, refl, sym, ap, ◌∙◌, arith, Bool, inl, inr, String, string_eq, list_eq, List, [],
  ◌∷◌, Option, none, some, Option-cases,
}
use community_integrations.Base.Action.{Action, for_each}
use community_integrations.Base.Dict.{get}
use community_integrations.Base.Lists.{length}
use community_integrations.OpenLineage.Event.{Event}
use community_integrations.OpenLineage.Storage.{
  Call, max_synthesis_runs, Memory, Wrapper, dispatch_event, dispatch_entry, store_event,
  store_event_batch,
}
use community_integrations.OpenLineage.Storage.Laws.{accepted}
use community_integrations.OpenLineage.Storage.Runs.{
  Runs, Matches, runs_after, calls_for, runs_after_all, calls_for_all,
}
use community_integrations.OpenLineage.Storage.Step.{
  send_all, send_all-append, dispatch_event-IsTold, dispatch_event-quiet,
}

module _ {E W : Type 0} (emit : Call → Action E W)
    (quiet : (call : Call) (w : W) → (emit call w).0 ≡ none) {L : Type 0} (is_exception : E → Bool)
    (store : Option Event → Action E L) where
  -- What is told of the events, and what is planned after them.
  abbrev AreTold : List (Option Event) → Memory W → Runs → Memory W → Type 0
  AreTold events m runs next =
      (next.world ≡ send_all emit (calls_for_all events runs) m.world)
      × Matches next.planned (runs_after_all events runs)

  batch-AreTold :
      (entries : List (Option Event)) (s : Wrapper L W) (runs : Runs)
      → length s.memory.planned + length entries ≤ max_synthesis_runs
      → Matches s.memory.planned runs
      → AreTold
          (accepted store entries s.log)
          s.memory
          runs
          (store_event_batch is_exception store emit entries s).1.memory
  unfolding store_event_batch for_each store_event accepted runs_after_all calls_for_all send_all
      dispatch_entry
  batch-AreTold [] s runs room h = (refl, h)
  batch-AreTold (none ∷ entries) s runs room h = elim (Option-cases (store none s.log).0) [
    | inr (e, raised) ↦ rw raised (refl, h)
    | inl stored ↦
        rw stored
          (batch-AreTold entries (record s { log = (store none s.log).1 }) runs (omega arith) h)
  ]
  batch-AreTold (some event ∷ entries) s runs room h =
      elim (Option-cases (store (some event) s.log).0) [
        | inr (e, raised) ↦ rw raised (refl, h)
        | inl stored ↦
            let (sent, planned, grown) =
              dispatch_event-IsTold emit quiet event.event_type event.run_id event.timestamp
                event.asset s.memory runs (omega arith) h in
            let silent =
              dispatch_event-quiet emit quiet event.event_type event.run_id event.timestamp
                event.asset s.memory in
            let after = runs_after event.event_type event.run_id event.asset.path runs in
            let (told, planned_then) =
              batch-AreTold entries
                (record {
                  log = (store (some event) s.log).1;
                  memory =
                      (dispatch_event emit event.event_type event.run_id event.timestamp event.asset
                        s.memory).1;
                })
                after (omega arith) planned in
            let rest = calls_for_all (accepted store entries (store (some event) s.log).1) after in
            rw (stored, silent)
              (
                told
                    ∙ ap (send_all emit rest) sent
                    ∙ sym (
                        send_all-append emit
                          (calls_for event.event_type event.run_id event.timestamp event.asset runs)
                          rest s.memory.world),
                planned_then,
              )
      ]

  -- Where the adapter raises nothing, and there is room for a run for each event: a batch tells, in
  -- order, of the events that the other storage takes up to the first that it refuses. Each event on an
  -- asset is told by one call, and the failure of a run or of a step by one for each asset that is
  -- planned then. The assets that are planned for each run afterwards are as these events add and
  -- remove them.
  pub store_event_batch-told :
      (entries : List (Option Event)) (s : Wrapper L W)
      → length s.memory.planned + length entries ≤ max_synthesis_runs
      → let m = (store_event_batch is_exception store emit entries s).1.memory in
        let events = accepted store entries s.log in
        let runs : Runs = λ run. get s.memory.planned run in
        (m.world ≡ send_all emit (calls_for_all events runs) s.memory.world)
        × ((run : String) → get m.planned run ≡ runs_after_all events runs run)
  store_event_batch-told entries s room =
      batch-AreTold entries s (λ run. get s.memory.planned run) room (λ run. refl)
