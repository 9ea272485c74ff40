-- ===== src/OpenLineage/Tick/Quiet.antt =====
-- When nothing can stop the sensor's loop.
use community_integrations.Base.{
  ℕ, ◌≡◌, refl, arith, List, [], ◌∷◌, Bool, true, false, String, string_eq, Option, none, some,
  contains, if◌then◌else◌, ◌&&◌, ok, Option-cases, inl, inr,
}
use community_integrations.Base.Action.{Action, ◌>>◌, for_each}
use community_integrations.Base.Dict.{get}
use community_integrations.OpenLineage.Event.{
  EventType, event_type_eq, AssetData, Event, Record, Emission, asset_drained,
}
use community_integrations.OpenLineage.Repository.{
  DagsterRun, get_repository_name, repository_name_of,
}
use community_integrations.OpenLineage.Sensor.{
  RunningPipeline, Backend, State, handle_pipeline_event, step_branch, handle_step_event,
  asset_branch, handle_asset_event, drain_planned_as_failures, drain_pipeline, drain_if_tracked,
  emit, or_else,
}
use community_integrations.OpenLineage.Tick.{
  EventSets, run_termination_types, asset_event_types, dispatch_pipeline, dispatch_step_of,
  dispatch, repository_name, handle_event, handle_entry, handle_record, process,
}
use community_integrations.OpenLineage.Tick.Progress.{last_id}

-- Neither a call of the adapter nor the look-up of a run raises.
pub record NeverRaises {E W : Type 0} (backend : Backend E W) : Type 0 where
  pub emits : (e : Emission) (w : W) → (backend.emit e w).0 ≡ none
  pub finds :
      (run : String) (w : W)
      → (found : Option DagsterRun) × (backend.get_run_by_id run w ≡ ok found)

module _ {E W : Type 0} (backend : Backend E W) (never : NeverRaises backend) where
  abbrev IsQuiet : Action E (State W) → Type 0
  IsQuiet f = (s : State W) → (f s).0 ≡ none

  handle_pipeline_event-IsQuiet :
      (type : EventType) (name run : String) (time : ℕ) (repository : Option String)
      → IsQuiet (handle_pipeline_event backend type name run time repository)
  unfolding handle_pipeline_event emit
  handle_pipeline_event-IsQuiet type name run time repository s =
      let told = λ (e : Emission). never.emits e s.world in grind arith

  step_branch-IsQuiet :
      (type : EventType) (name run : String) (time : ℕ) (step : String) (repository : Option String)
      (p : RunningPipeline) (id : String)
      → IsQuiet (step_branch backend type name run time step repository p id)
  unfolding step_branch emit
  step_branch-IsQuiet type name run time step repository p id s =
      let told = λ (e : Emission). never.emits e s.world in grind arith

  asset_branch-IsQuiet :
      (type : EventType) (run : String) (time : ℕ) (a : AssetData) (p : RunningPipeline)
      → IsQuiet (asset_branch backend type run time a p)
  unfolding asset_branch emit
  asset_branch-IsQuiet type run time a p s =
      let told = λ (e : Emission). never.emits e s.world in grind arith

  then-IsQuiet : (f g : Action E (State W)) → IsQuiet f → IsQuiet g → IsQuiet (f >> g)
  then-IsQuiet f g quiet_f quiet_g s =
      let first = quiet_f s in let second = quiet_g (f s).1 in ground arith

  if-IsQuiet :
      (b : Bool) (f g : Action E (State W)) → IsQuiet f → IsQuiet g → IsQuiet (if b then f else g)
  if-IsQuiet true f g quiet_f quiet_g = quiet_f
  if-IsQuiet false f g quiet_f quiet_g = quiet_g

  emit_all-IsQuiet :
      {A : Type 0} (f : A → Emission) (xs : List A)
      → IsQuiet (for_each (λ a. emit backend (f a)) xs)
  unfolding for_each emit
  emit_all-IsQuiet f [] s = refl
  emit_all-IsQuiet f (x ∷ xs) s =
      let told = never.emits (f x) s.world in
      let later = emit_all-IsQuiet f xs (emit backend (f x) s).1 in ground arith

  drain_if_tracked-IsQuiet :
      (run : String) (time : ℕ) (o : Option RunningPipeline)
      → IsQuiet (drain_if_tracked backend run time false o)
  unfolding drain_pipeline
  drain_if_tracked-IsQuiet run time none s = refl
  drain_if_tracked-IsQuiet run time (some p) s =
      let told = emit_all-IsQuiet (λ path. asset_drained path run time) p.planned_asset_paths s in
      ground arith

  dispatch_step_of-IsQuiet :
      (sets : EventSets) (process_asset : Bool) (event : Event)
      (repository name step : Option String)
      → IsQuiet (dispatch_step_of backend sets process_asset event repository name step)
  unfolding handle_step_event
  dispatch_step_of-IsQuiet sets process_asset event repository (some name) (some step) s =
      step_branch-IsQuiet event.event_type name event.run_id event.timestamp step repository _ _ _
  dispatch_step_of-IsQuiet sets process_asset event repository none _ s = refl
  dispatch_step_of-IsQuiet sets process_asset event repository (some name) none s = refl

  dispatch-IsQuiet :
      (sets : EventSets) (process_asset : Bool) (event : Event) (repository : Option String)
      → IsQuiet (dispatch backend sets process_asset event repository)
  unfolding dispatch dispatch_pipeline drain_planned_as_failures handle_asset_event
  dispatch-IsQuiet sets process_asset event repository =
      if-IsQuiet (process_asset && contains asset_event_types event.event_type) _ _
        (λ s. asset_branch-IsQuiet event.event_type event.run_id event.timestamp event.asset _ _)
        (if-IsQuiet (contains sets.pipeline_events event.event_type) _ _
          (then-IsQuiet _ _
            (if-IsQuiet (process_asset && contains run_termination_types event.event_type) _ _
              (λ s.
                drain_if_tracked-IsQuiet event.run_id event.timestamp (get s.running event.run_id)
                  s)
              (λ s. refl))
            (handle_pipeline_event-IsQuiet event.event_type (or_else event.job_name "") event.run_id
              event.timestamp repository))
          (if-IsQuiet (contains sets.step_events event.event_type) _ _
            (dispatch_step_of-IsQuiet sets process_asset event repository event.job_name
              event.step_key)
            (λ s. refl)))

  module _ (sets : EventSets) (process_asset : Bool) where
    repository_known :
        (run : String) (s : State W)
        → (repository : Option String) × (repository_name backend sets process_asset run s
            ≡ ok repository)
    unfolding repository_name get_repository_name
    repository_known run s =
        let (found, looked_up) = never.finds run s.world in
        elim (Option-cases (get s.running run)) [
          | inl untracked ↦ (repository_name_of found, ground (arith, untracked, looked_up))
          | inr (p, tracked) ↦ (p.repository_name, ground (arith, tracked))
        ]

    handle_entry-IsQuiet : (o : Option Event) → IsQuiet (handle_entry backend sets process_asset o)
    unfolding handle_event
    handle_entry-IsQuiet none s = refl
    handle_entry-IsQuiet (some event) s =
        let (repository, known) = repository_known event.run_id s in
        rw known (dispatch-IsQuiet sets process_asset event repository s)

    -- Where neither a call of the adapter nor the look-up of a run raises, the loop handles every
    -- record: it raises nothing, and ends with the id of the last record, or the first id if there is
    -- none.
    pub process-NeverRaises :
        (records : List Record) (last : ℕ) (s : State W)
        → ((process backend sets process_asset records last s).raised_exception ≡ none)
          × ((process backend sets process_asset records last s).last_storage_id
              ≡ last_id last records)
    unfolding process handle_record last_id
    process-NeverRaises [] last s = (refl, refl)
    process-NeverRaises (r ∷ rs) last s =
        let quiet = handle_entry-IsQuiet r.event s in
        let later =
          process-NeverRaises rs r.storage_id (handle_record backend sets process_asset r s).1 in
        ground arith
