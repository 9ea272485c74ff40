-- ===== src/OpenLineage/Adapter.antt =====
-- adapter.py: the OpenLineage events of pipelines and steps. The events are the OpenLineage client's;
-- of one, what the adapter puts into it is kept.
use community_integrations.Base.{
  ◌≡◌, refl, ℕ, String, string_eq, Option, none, some, ◌==◌, if◌then◌else◌,
}
use community_integrations.Base.Text.{◌<>◌}
use community_integrations.OpenLineage.Event.{
  Emission, start_pipeline, complete_pipeline, fail_pipeline, cancel_pipeline, start_step,
  complete_step, fail_step,
}

pub data RunState : Type 0 where
  state_start state_complete state_fail state_abort : RunState

pub record Job : Type 0 where
  pub namespace : String
  pub name : String

-- `ParentRunFacet`
pub record Parent : Type 0 where
  pub parent_run_id : String
  pub parent_job : Job

pub record Run : Type 0 where
  pub run_id : String
  pub parent : Option Parent

pub record RunEvent : Type 0 where
  pub event_type : RunState
  pub event_time : String
  pub run : Run
  pub job : Job

-- `make_step_job_name` of utils.py
unfoldable pub make_step_job_name : String → String → String
make_step_job_name pipeline step = pipeline <> "." <> step

-- `_build_job`
unfoldable pub build_job : String → String → Job
build_job namespace name = record { namespace = namespace; name = name }

-- `_build_run`, of a pipeline and of a step, which has a parent.
unfoldable pub build_run : String → String → Option (String × String) → Run
build_run namespace run_id none = record { run_id = run_id; parent = none }
build_run namespace run_id (some (parent_run_id, parent_job_name)) = record {
  run_id = run_id;
  parent = some (record {
    parent_run_id = parent_run_id;
    parent_job = record { namespace = namespace; name = parent_job_name };
  });
}

-- `default` is the adapter's own namespace, and `iso` the text of a time.
module _ (default : String) (iso : ℕ → String) where
  -- `repository_name if repository_name else self._namespace`: an empty name is no name.
  unfoldable pub namespace_for : Option String → String
  namespace_for none = default
  namespace_for (some repository) = if repository == "" then default else repository

  -- The event that `_emit_pipeline_event` emits.
  unfoldable pub pipeline_event : RunState → String → String → ℕ → Option String → RunEvent
  unfolding build_run build_job namespace_for
  pipeline_event type name run time repository =
      let namespace = namespace_for repository in
      record {
        event_type = type;
        event_time = iso time;
        run = build_run namespace run none;
        job = build_job namespace name;
      }

  -- The event that `_emit_step_event` emits.
  unfoldable pub step_event :
      RunState → String → String → ℕ → String → String → Option String → RunEvent
  unfolding build_run build_job namespace_for make_step_job_name
  step_event type name run time step_run_id step repository =
      let namespace = namespace_for repository in
      record {
        event_type = type;
        event_time = iso time;
        run = build_run namespace step_run_id (some (run, name));
        job = build_job namespace (make_step_job_name name step);
      }

  -- The methods on pipelines and steps.
  unfoldable pub run_event : Emission → Option RunEvent
  unfolding pipeline_event step_event
  run_event (start_pipeline name run time repository) =
      some (pipeline_event state_start name run time repository)
  run_event (complete_pipeline name run time repository) =
      some (pipeline_event state_complete name run time repository)
  run_event (fail_pipeline name run time repository) =
      some (pipeline_event state_fail name run time repository)
  run_event (cancel_pipeline name run time repository) =
      some (pipeline_event state_abort name run time repository)
  run_event (start_step name run time id step repository) =
      some (step_event state_start name run time id step repository)
  run_event (complete_step name run time id step repository) =
      some (step_event state_complete name run time id step repository)
  run_event (fail_step name run time id step repository) =
      some (step_event state_fail name run time id step repository)
  run_event _ = none

  -- The parent that a step's event names is the run and the job that its pipeline's events are of, at
  -- whatever times and in whatever states, if both are told with the same repository.
  step_event_parent :
      (type pipeline_type : RunState) (name run : String) (time pipeline_time : ℕ)
      (step_run_id step : String) (repository : Option String)
      → let p = pipeline_event pipeline_type name run pipeline_time repository in
        (step_event type name run time step_run_id step repository).run.parent
        ≡ some (record { parent_run_id = p.run.run_id; parent_job = p.job })
  unfolding step_event pipeline_event build_run build_job
  step_event_parent type pipeline_type name run time pipeline_time step_run_id step repository =
      refl
