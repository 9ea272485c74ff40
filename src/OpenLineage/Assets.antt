-- ===== src/OpenLineage/Assets.antt =====
-- adapter.py: the OpenLineage events of assets and of their checks. The facets and the log messages are
-- left out. Names are texts as code points; `AssetKey.to_user_string` is Dagster's.
pub mod Lineage
mod Tests
use community_integrations.Base.{
  ℕ, Bool, true, false, List, [], ◌∷◌, ◌++◌, Option, none, some, Result, ok, err, ◌>>=◌,
  if◌then◌else◌,
}
use mathlib.Core.List.{map}
use community_integrations.Base.Dict.{Dict}
use community_integrations.Base.Lists.{is_empty}
use community_integrations.Base.Text.{Text, codes}
use community_integrations.OpenLineage.Adapter.{RunState, state_start, state_complete, state_fail}
use community_integrations.OpenLineage.Naming.{
  Segment, TemplateError, parse_namespace_template, resolve_namespace,
}
use community_integrations.OpenLineage.Naming.Resolve.{join_slash}

-- `AssetKey.path`
abbrev pub AssetPath : Type 0
AssetPath = List Text

-- A dataset, or the job of an event.
pub record Named : Type 0 where
  pub namespace : Text
  pub name : Text

pub record AssetEvent : Type 0 where
  pub event_type : RunState
  pub event_time : Text
  pub run_id : Text
  pub job : Named
  pub inputs : List Named
  pub outputs : List Named

-- `DatasetEvent`
pub record DatasetEvent : Type 0 where
  pub event_time : Text
  pub dataset : Named

-- What `__init__` sets.
pub record Adapter : Type 0 where
  pub namespace : Text
  pub parsed_template : Option (List Segment)

-- `value or default`
abbrev pub text_or : Text → Text → Text
text_or default value = if is_empty value then default else value

abbrev pub given_or : Text → Option Text → Text
given_or default none = default
given_or default (some value) = text_or default value

abbrev parsed : Text → Text → Result TemplateError Adapter
parsed namespace template = do
  segments ← parse_namespace_template template
  ok (record { namespace = namespace; parsed_template = some segments })

-- `__init__`; the default is of the environment.
unfoldable pub make_adapter : Text → Option Text → Option Text → Result TemplateError Adapter
make_adapter default namespace none =
    ok (record { namespace = given_or default namespace; parsed_template = none })
make_adapter default namespace (some template) =
    if is_empty template
    then ok (record { namespace = given_or default namespace; parsed_template = none })
    else parsed (given_or default namespace) template

-- No tags are None.
abbrev pub tags_or_none : Option (Dict Text Text) → Dict Text Text
tags_or_none none = []
tags_or_none (some tags) = tags

abbrev pub dataset_in : Text → AssetPath → Named
dataset_in namespace path = record { namespace = namespace; name = join_slash path }

abbrev pub upstream_or_none : Option (List AssetPath) → List AssetPath
upstream_or_none none = []
upstream_or_none (some keys) = keys

-- `_resolve_namespace`
unfoldable pub namespace_of : Adapter → Option (Dict Text Text) → Text
namespace_of adapter tags = elim adapter.parsed_template [
  | none ↦ adapter.namespace
  | some segments ↦
      text_or adapter.namespace (resolve_namespace segments adapter.namespace (tags_or_none tags))
]

-- `to_user_string` is that of an asset key, and `iso` the text of a time.
module _ (to_user_string : AssetPath → Text) (iso : ℕ → Text) (adapter : Adapter) where
  unfoldable pub asset_materialization_planned :
      AssetPath → Text → ℕ → Option (Dict Text Text) → AssetEvent
  asset_materialization_planned path run time tags =
      let namespace = namespace_of adapter tags in
      record {
        event_type = state_start;
        event_time = iso time;
        run_id = run;
        job = record { namespace = namespace; name = to_user_string path };
        inputs = [];
        outputs = dataset_in namespace path ∷ [];
      }

  unfoldable pub asset_materialization :
      AssetPath → Text → ℕ → Option (List AssetPath) → Option (Dict Text Text) → AssetEvent
  asset_materialization path run time upstream tags =
      let namespace = namespace_of adapter tags in
      record {
        event_type = state_complete;
        event_time = iso time;
        run_id = run;
        job = record { namespace = namespace; name = to_user_string path };
        inputs = map (dataset_in namespace) (upstream_or_none upstream);
        outputs = dataset_in namespace path ∷ [];
      }

  unfoldable pub asset_failed_to_materialize :
      AssetPath → Text → ℕ → Option (Dict Text Text) → AssetEvent
  asset_failed_to_materialize path run time tags =
      let namespace = namespace_of adapter tags in
      record {
        event_type = state_fail;
        event_time = iso time;
        run_id = run;
        job = record { namespace = namespace; name = to_user_string path };
        inputs = [];
        outputs = dataset_in namespace path ∷ [];
      }

  unfoldable pub asset_observation : AssetPath → ℕ → Option (Dict Text Text) → DatasetEvent
  asset_observation path time tags = record {
    event_time = iso time;
    dataset = dataset_in (namespace_of adapter tags) path;
  }

  abbrev check_event : RunState → AssetPath → Text → ℕ → Option (Dict Text Text) → AssetEvent
  check_event type path run time tags =
      let namespace = namespace_of adapter tags in
      record {
        event_type = type;
        event_time = iso time;
        run_id = run;
        job = record { namespace = namespace; name = to_user_string path ++ codes "__checks" };
        inputs = dataset_in namespace path ∷ [];
        outputs = [];
      }

  -- Nothing is emitted for a check that runs with its asset.
  unfoldable pub asset_check_evaluation_planned :
      AssetPath → Text → ℕ → Bool → Option (Dict Text Text) → Option AssetEvent
  asset_check_evaluation_planned path run time false tags = none
  asset_check_evaluation_planned path run time true tags =
      some (check_event state_start path run time tags)

  unfoldable pub asset_check_evaluation :
      AssetPath → Text → ℕ → Option (Dict Text Text) → AssetEvent
  asset_check_evaluation path run time tags = check_event state_complete path run time tags
