-- ===== src/OpenLineage/Tick/Cursor.antt =====
-- What the stored cursor holds: its runs, each once, and not more than a thousand of them.
use community_integrations.Base.{
  Option, none, some, ℕ, zero, suc, ◌-◌, ◌≤◌, ◌≡◌, refl, List, [], ◌∷◌, ◌++◌, Bool, String,
  string_eq, arith, ◌⊎◌, inl, inr, subst, sym, Bool-cases,
}
use community_integrations.Base.Dict.{
  pop, NodupKeys, put-NodupKeys, pop-NodupKeys, append-NodupKeys, drop-NodupKeys, contains-keys-pop,
}
use community_integrations.Base.Lists.{length, drop, take, ltb}
use community_integrations.OpenLineage.Event.{EventType}
use community_integrations.OpenLineage.Fetch.{Query, get_event_log_records}
use community_integrations.OpenLineage.Sensor.{
  Running, RunningPipeline, OpenLineageCursor, Backend, State, promote,
}
use community_integrations.OpenLineage.Tick.{
  EventSets, max_cursor_running_pipelines, evict, process, tick, openlineage_sensor, Config,
  cursor_or_first,
}
use community_integrations.OpenLineage.Tick.Preserved.{IsKept, process-Keeps}

promote-NodupKeys :
    (run : String) (p : RunningPipeline) (running : Running)
    → NodupKeys running
    → NodupKeys (promote run p running)
unfolding promote
promote-NodupKeys run p running h =
    let gone = contains-keys-pop running run run in
    append-NodupKeys (pop running run) run p (ground arith) (pop-NodupKeys running run h)

NodupKeys-IsKept : IsKept NodupKeys
NodupKeys-IsKept = record {
  putting = λ run p r h. put-NodupKeys r run p h;
  popping = λ run r h. pop-NodupKeys r run h;
  promoting = promote-NodupKeys;
}

length-drop : {A : Type 0} (n : ℕ) (xs : List A) → length (drop n xs) ≡ length xs - n
length-drop zero xs = omega arith
length-drop (suc n) [] = omega arith
length-drop (suc n) (x ∷ xs) = omega (arith, length-drop n xs)

take-append-drop : {A : Type 0} (n : ℕ) (xs : List A) → take n xs ++ drop n xs ≡ xs
take-append-drop zero xs = refl
take-append-drop (suc n) [] = refl
take-append-drop (suc n) (x ∷ xs) = cc (take-append-drop n xs)

-- The runs that are left are the last ones: those that went stood before them, and none goes unless
-- as many as the cursor holds are left.
-- `kept` is the end of `running`, at most a thousand long, and short of that only if nothing is gone.
abbrev pub AreLatest : Running → Running → Type 0
AreLatest running kept =
    (gone : Running) × (running ≡ gone ++ kept)
    × (length kept ≤ max_cursor_running_pipelines)
    × ((gone ≡ []) ⊎ (length kept ≡ max_cursor_running_pipelines))

pub evict_recent : (running : Running) → AreLatest running (evict running)
unfolding evict
evict_recent running =
    let n = length running - max_cursor_running_pipelines in
    let split = take-append-drop n running in
    let size = length-drop n running in
    elim (Bool-cases (ltb max_cursor_running_pipelines (length running))) [
      | inl over ↦
          let latest : evict running ≡ drop n running = ground arith in
          subst (AreLatest running) (sym latest)
            (take n running, sym split, ground arith, inr (ground arith))
      | inr fits ↦
          let latest : evict running ≡ running = ground arith in
          subst (AreLatest running) (sym latest) ([], refl, ground arith, inl refl)
    ]

-- Each run stands once, and there are at most a thousand.
abbrev pub IsBounded : OpenLineageCursor → Type 0
IsBounded c =
    NodupKeys c.running_pipelines × (length c.running_pipelines ≤ max_cursor_running_pipelines)

evict-NodupKeys : (running : Running) → NodupKeys running → NodupKeys (evict running)
unfolding evict
evict-NodupKeys running h =
    let dropped = drop-NodupKeys (length running - max_cursor_running_pipelines) running h in
    ground arith

module _ {E W : Type 0} (backend : Backend E W) (sets : EventSets) (process_asset : Bool) where
  tick_cursor :
      (query : Query) (types : List EventType) (limit : ℕ) (cursor : OpenLineageCursor) (world : W)
      → NodupKeys cursor.running_pipelines
      → IsBounded (tick backend sets process_asset query types limit cursor world).1
  unfolding tick
  tick_cursor query types limit cursor world h =
      let records = get_event_log_records query types cursor.last_storage_id limit in
      let s : State W = record { running = cursor.running_pipelines; world = world } in
      let ended = process backend sets process_asset records cursor.last_storage_id s in
      let once =
        process-Keeps backend NodupKeys NodupKeys-IsKept sets process_asset records
          cursor.last_storage_id s h in
      (evict-NodupKeys ended.state.running once, (evict_recent ended.state.running).2)

module _ {E W : Type 0} (backend : Backend E W) (sets : EventSets) where
  -- An evaluation of the sensor with no stored cursor, or from one in which each run stands once,
  -- stores such a cursor, with at most a thousand runs, whatever was raised.
  pub openlineage_sensor_cursor :
      (config : Config) (wrapped : Option Bool) (query : Query) (stored : Option OpenLineageCursor)
      (world : W)
      → ((c : OpenLineageCursor) → stored ≡ some c → NodupKeys c.running_pipelines)
      → IsBounded (openlineage_sensor backend sets config wrapped query stored world).1
  unfolding openlineage_sensor cursor_or_first
  openlineage_sensor_cursor config wrapped query none world h =
      tick_cursor backend sets _ query _ _ (cursor_or_first config none) world tt
  openlineage_sensor_cursor config wrapped query (some c) world h =
      tick_cursor backend sets _ query _ _ c world (h c refl)
