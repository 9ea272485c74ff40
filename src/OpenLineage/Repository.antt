-- ===== src/OpenLineage/Repository.antt =====
-- compat.py and `get_repository_name` of utils.py: which repository a run comes from. Runs and their
-- origins are Dagster's; an attribute that a release of it lacks, or that is None, is `none`.
use community_integrations.Base.{String, Option, none, some, Result, ◌>>=◌, ok}

pub record RepositoryOrigin : Type 0 where
  pub repository_name : String

-- `repository_origin` is an option of an option, for the attribute may be there and be None.
pub record Origin : Type 0 where
  pub repository_origin : Option (Option RepositoryOrigin)
  pub external_repository_origin : Option RepositoryOrigin

pub record DagsterRun : Type 0 where
  pub remote_pipeline_origin : Option Origin
  pub remote_job_origin : Option Origin
  pub external_job_origin : Option Origin

-- `a or b`, where whatever is not None is true.
abbrev pub or_option {ℓ} : {A : Type ℓ} → Option A → Option A → Option A
or_option none b = b
or_option (some a) b = some a

unfoldable pub get_pipeline_origin : DagsterRun → Option Origin
get_pipeline_origin run = run.remote_pipeline_origin

unfoldable pub get_job_origin : DagsterRun → Option Origin
get_job_origin run = or_option run.remote_job_origin run.external_job_origin

unfoldable pub get_repository_origin : Option Origin → Option RepositoryOrigin
get_repository_origin none = none
get_repository_origin (some origin) = elim origin.repository_origin [
  | some there ↦ there
  | none ↦ origin.external_repository_origin
]

abbrev name_of : Option RepositoryOrigin → Option String
name_of none = none
name_of (some origin) = some origin.repository_name

unfoldable pub repository_name_of : Option DagsterRun → Option String
unfolding get_pipeline_origin get_job_origin get_repository_origin
repository_name_of none = none
repository_name_of (some run) =
    name_of (get_repository_origin (or_option (get_pipeline_origin run) (get_job_origin run)))

-- What `instance.get_run_by_id` returned or raised, made into a name.
unfoldable pub get_repository_name :
    {E : Type 0} → Result E (Option DagsterRun) → Result E (Option String)
unfolding repository_name_of
get_repository_name found = found >>= λ run. ok (repository_name_of run)
