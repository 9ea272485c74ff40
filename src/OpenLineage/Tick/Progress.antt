-- ===== src/OpenLineage/Tick/Progress.antt =====
-- How far the sensor's loop gets.
use community_integrations.Base.{
  ℕ, ◌≡◌, refl, ◌⊎◌, inl, inr, List, [], ◌∷◌, ◌++◌, Bool, Option, none, some, subst,
}
use community_integrations.OpenLineage.Event.{Record}
use community_integrations.OpenLineage.Sensor.{Backend, State}
use community_integrations.OpenLineage.Tick.{EventSets, Outcome, handle_record, process}

-- The id of the last record, or what it was before.
unfoldable pub last_id : ℕ → List Record → ℕ
last_id last [] = last
last_id last (r ∷ rs) = last_id r.storage_id rs

module _ {E W : Type 0} (backend : Backend E W) (sets : EventSets) (process_asset : Bool) where
  -- Records that are handled one after another, none of them raising.
  pub data Handles : State W → List Record → State W → Type 0 where
    no_records : {s : State W} → Handles s [] s
    next_record :
        {s t u : State W} {r : Record} {rs : List Record}
        → handle_record backend sets process_asset r s ≡ (none, t)
        → Handles t rs u
        → Handles s (r ∷ rs) u

  -- Either all records went through, or the loop stopped at the one that raised.
  abbrev pub Ends : Outcome backend sets process_asset → List Record → State W → Type 0
  Ends o rest t =
      ((rest ≡ []) × (o.raised_exception ≡ none) × (o.state ≡ t))
      ⊎ ((r : Record) × (rs : List Record) × (e : E) × (rest ≡ r ∷ rs)
          × (handle_record backend sets process_asset r t ≡ (some e, o.state))
          × (o.raised_exception ≡ some e))

  abbrev pub Progress : List Record → ℕ → State W → Outcome backend sets process_asset → Type 0
  Progress records last s o =
      (done : List Record) × (rest : List Record) × (t : State W) × (records ≡ done ++ rest)
      × Handles s done t
      × (o.last_storage_id ≡ last_id last done)
      × Ends o rest t

  -- One turn of the loop, by what the handling of its record gave.
  abbrev turn : ℕ → List Record → Record → Option E → State W → Outcome backend sets process_asset
  turn last rs r none t = process backend sets process_asset rs r.storage_id t
  turn last rs r (some e) t = record {
    raised_exception = some e;
    last_storage_id = last;
    state = t;
  }

  turn-Progress :
      (r : Record) (rs : List Record) (last : ℕ) (s : State W)
      → ((t : State W)
          → Progress rs r.storage_id t (process backend sets process_asset rs r.storage_id t))
      → (raised : Option E) (t : State W)
      → handle_record backend sets process_asset r s ≡ (raised, t)
      → Progress (r ∷ rs) last s (turn last rs r raised t)
  unfolding last_id
  turn-Progress r rs last s later none t h =
      let (done, rest, u, split, handles, ids, ends) = later t in
      (r ∷ done, rest, u, cc, next_record h handles, ids, ends)
  turn-Progress r rs last s later (some e) t h =
      ([], r ∷ rs, s, refl, no_records, refl, inr (r, rs, e, refl, h, refl))

  -- The records are a handled part and a rest: the id that the loop ends with is that of the last
  -- record of the handled part, or the first id if that part is empty. The rest is empty if nothing
  -- was raised, and else begins with the record whose handling raised.
  pub process-Progress :
      (records : List Record) (last : ℕ) (s : State W)
      → Progress records last s (process backend sets process_asset records last s)
  unfolding process last_id
  process-Progress [] last s = ([], [], s, refl, no_records, refl, inl (refl, refl, refl))
  process-Progress (r ∷ rs) last s =
      let result = handle_record backend sets process_asset r s in
      subst (Progress (r ∷ rs) last s) (turn_eq result.0 result.1)
        (turn-Progress r rs last s (λ t. process-Progress rs r.storage_id t) result.0 result.1 refl)
    where
      turn_eq :
          (raised : Option E) (t : State W)
          → turn last rs r raised t ≡ elim raised [
            | some e ↦ record { raised_exception = some e; last_storage_id = last; state = t }
            | none ↦ process backend sets process_asset rs r.storage_id t
          ]
      turn_eq none t = refl
      turn_eq (some e) t = refl
