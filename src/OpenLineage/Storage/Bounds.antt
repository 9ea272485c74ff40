-- ===== src/OpenLineage/Storage/Bounds.antt =====
-- How much the wrapper remembers.
use community_integrations.Base.{
  ℕ, ◌+◌, ◌≤◌, ◌≡◌, refl, arith, sym, subst, String, string_eq, List, [], ◌∷◌, Option, none, some,
  Bool, contains, false, Option-cases, inl, inr,
}
use community_integrations.Base.Action.{Action, after, for_each}
use community_integrations.Base.Dict.{
  get, pop, keys, NodupKeys, put-NodupKeys, pop-NodupKeys, append-NodupKeys, drop-NodupKeys,
  contains-keys, contains-keys-pop, length-pop-le, length-pop_lt, length-put,
}
use community_integrations.Base.Lists.{length, length-append, drop}
use community_integrations.OpenLineage.Event.{Event, EventType, AssetData, AssetPath}
use community_integrations.OpenLineage.Sensor.{add_path, discard_path}
use community_integrations.OpenLineage.Storage.{
  Planned, Call, Memory, Wrapper, tell, drain, dispatch_event, dispatch_entry, store_event,
  store_event_batch, track, change, max_synthesis_runs, call_drained, paths_of,
}

-- A run stands once, and there are at most a thousand runs.
abbrev pub IsBounded : Planned → Type 0
IsBounded planned = NodupKeys planned × (length planned ≤ max_synthesis_runs)

drop_unknown :
    (planned : Planned) (run : String)
    → contains (keys planned) run ≡ false
    → contains (keys (drop 1 planned)) run ≡ false
unfolding keys
drop_unknown [] run h = refl
drop_unknown ((r, paths) ∷ planned) run h = ground arith

length-drop_one : (planned : Planned) → length (drop 1 planned) + 1 ≤ length planned + 1
length-drop_one [] = omega arith
length-drop_one (p ∷ planned) = omega arith

drop_room :
    (planned : Planned)
    → length planned ≤ max_synthesis_runs
    → length (drop 1 planned) + 1 ≤ max_synthesis_runs
drop_room [] h = omega arith
drop_room (p ∷ planned) h = omega arith

track-IsBounded :
    (run : String) (planned : Planned) → IsBounded planned → IsBounded (track run planned)
unfolding track
track-IsBounded run planned (once, few) = elim (Option-cases (get planned run)) [
  | inl unknown ↦
      let known = contains-keys planned run in
      let dropped =
        append-NodupKeys (drop 1 planned) run [] (drop_unknown planned run (ground arith))
          (drop-NodupKeys 1 planned once) in
      let kept = append-NodupKeys planned run [] (ground arith) once in
      let room = drop_room planned few in
      let size_dropped = length-append (drop 1 planned) ((run, []) ∷ []) in
      let size = length-append planned ((run, []) ∷ []) in ground (arith, unknown)
  | inr (paths, found) ↦
      let gone = contains-keys-pop planned run run in
      let moved =
        append-NodupKeys (pop planned run) run paths (ground arith)
          (pop-NodupKeys planned run once) in
      let less = length-pop_lt planned run found in
      let size = length-append (pop planned run) ((run, paths) ∷ []) in ground (arith, found)
]

change-IsBounded :
    (run : String) (f : List AssetPath → List AssetPath) (planned : Planned)
    → IsBounded planned
    → IsBounded (change run f planned)
unfolding change
change-IsBounded run f planned (once, few) = elim (Option-cases (get planned run)) [
  | inl unknown ↦ ground (arith, unknown)
  | inr (paths, found) ↦
      let same = length-put planned run (f paths) found in
      let still = put-NodupKeys planned run (f paths) once in ground (arith, found)
]

pop-IsBounded : (run : String) (planned : Planned) → IsBounded planned → IsBounded (pop planned run)
pop-IsBounded run planned (once, few) =
    (pop-NodupKeys planned run once, omega (arith, length-pop-le planned run, few))

module _ {E W : Type 0} (emit : Call → Action E W) where
  tell_each-planned :
      (f : AssetPath → Call) (paths : List AssetPath) (m : Memory W)
      → (for_each (λ path. tell emit (f path)) paths m).1.planned ≡ m.planned
  unfolding for_each tell
  tell_each-planned f [] m = refl
  tell_each-planned f (path ∷ paths) m =
      ground (arith, tell_each-planned f paths (tell emit (f path) m).1)

  drain-IsBounded :
      (run : String) (time : ℕ) (m : Memory W)
      → IsBounded m.planned
      → IsBounded (drain emit run time m).1.planned
  unfolding drain
  drain-IsBounded run time m h =
      subst IsBounded
        (sym (
          tell_each-planned (λ path. call_drained path run time) (paths_of (get m.planned run))
            (record m { planned = pop m.planned run })))
        (pop-IsBounded run m.planned h)

  dispatch_event-IsBounded :
      (type : EventType) (run : String) (time : ℕ) (a : AssetData) (m : Memory W)
      → IsBounded m.planned
      → IsBounded (dispatch_event emit type run time a m).1.planned
  unfolding dispatch_event tell
  dispatch_event-IsBounded type run time a m h =
      let popped = pop-IsBounded run m.planned h in
      let discarded = change-IsBounded run (discard_path a.path) m.planned h in
      let added =
        change-IsBounded run (add_path a.path) (track run m.planned)
          (track-IsBounded run m.planned h) in
      let drained = drain-IsBounded run time m h in ground arith

  dispatch_entry-IsBounded :
      (entry : Option Event) (m : Memory W)
      → IsBounded m.planned
      → IsBounded (dispatch_entry emit entry m).1.planned
  unfolding dispatch_entry
  dispatch_entry-IsBounded none m h = h
  dispatch_entry-IsBounded (some event) m h =
      dispatch_event-IsBounded event.event_type event.run_id event.timestamp event.asset m h

module _ {E L W : Type 0} (is_exception : E → Bool) (store : Option Event → Action E L)
    (emit : Call → Action E W) where
  abbrev Bounded : Wrapper L W → Type 0
  Bounded s = IsBounded s.memory.planned

  store_event-Bounded :
      (entry : Option Event) (s : Wrapper L W)
      → Bounded s
      → Bounded (store_event is_exception store emit entry s).1
  unfolding store_event
  store_event-Bounded entry s h = elim (Option-cases (store entry s.log).0) [
    | inl stored ↦ rw stored (dispatch_entry-IsBounded emit entry s.memory h)
    | inr (e, refused) ↦ rw refused h
  ]

  after-Bounded :
      (next : Action E (Wrapper L W)) (r : Option E × Wrapper L W)
      → ((s : Wrapper L W) → Bounded s → Bounded (next s).1)
      → Bounded r.1
      → Bounded (after next r).1
  after-Bounded next (none, s) keeps h = keeps s h
  after-Bounded next (some e, s) keeps h = h

  -- A wrapper that remembers each run once, and at most a thousand runs, does so after any batch of
  -- events, whatever was raised.
  pub store_event_batch-IsBounded :
      (entries : List (Option Event)) (s : Wrapper L W)
      → IsBounded s.memory.planned
      → IsBounded (store_event_batch is_exception store emit entries s).1.memory.planned
  unfolding store_event_batch for_each
  store_event_batch-IsBounded [] s h = h
  store_event_batch-IsBounded (entry ∷ entries) s h =
      after-Bounded (store_event_batch is_exception store emit entries)
        (store_event is_exception store emit entry s) (λ t. store_event_batch-IsBounded entries t)
        (store_event-Bounded entry s h)
