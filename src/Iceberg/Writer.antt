-- ===== src/Iceberg/Writer.antt =====
-- _utils/io.py: `table_writer`, which makes or updates a table and writes an asset's data to it.
pub mod Rows
pub mod Prepare
pub mod Overwrite
pub mod Names
pub mod Errors
pub mod Model
mod Tests
use community_integrations.Base.{
  ◌||◌, not, Bool, true, false, String, List, [], ◌∷◌, Option, none, some, contains, string_eq,
  if◌then◌else◌, Result, ok, err, ◌>>=◌,
}
use community_integrations.Base.Action.{Action, skip, ◌>>◌}
use community_integrations.Base.Dict.{put}
use community_integrations.Base.Lists.{is_empty}
use community_integrations.Iceberg.Error.{
  Error, value_error, unmapped_partition, missing_field, no_upsert_options, index_error,
  is_no_such_table, is_create_conflict, is_commit_failed,
}
use community_integrations.Iceberg.Partitions.{Dimension, Partitions, Schema, PartitionField}
use community_integrations.Iceberg.Partitions.Updater as Spec
use community_integrations.Iceberg.Predicates.{
  Clock, Casts, Expression, expression_mapper, partition_dimensions_to_filters,
}
use community_integrations.Iceberg.Properties as Props
use community_integrations.Iceberg.Retry.{Retrying, execute}
use community_integrations.Iceberg.Schema as Columns
use community_integrations.Iceberg.Window.{Calendar}

-- `WriteMode`
pub data WriteMode : Type 0 where
  append_mode overwrite_mode upsert_mode : WriteMode

-- `UpsertOptions`
pub record UpsertOptions : Type 0 where
  pub join_cols : List String
  pub when_matched_update_all : Bool
  pub when_not_matched_insert_all : Bool

-- The filter of an overwrite: `ALWAYS_TRUE`, an expression, or `E.And` of several.
pub data RowFilter : Type 0 where
  always_true : RowFilter
  one_of : Expression → RowFilter
  all_of : List Expression → RowFilter

-- A dimension of a table slice; its expression may be None.
pub record SliceDimension (Time : Type 0) : Type 0 where
  pub partition_expr : Option String
  pub partitions : Partitions Time

-- The arguments of `table_writer` beside the slice, the data and the catalog, with the versions of the
-- two packages.
pub record Config : Type 0 where
  pub schema_update_mode : String
  pub partition_spec_update_mode : String
  pub dagster_run_id : String
  pub partition_field_name_prefix : String
  pub dagster_partition_key : Option String
  pub table_properties : Option Props.Properties
  pub write_mode : WriteMode
  pub upsert_options : Option UpsertOptions
  pub pyiceberg_version : String
  pub dagster_iceberg_version : String

-- pyiceberg's catalog and table, on a state of the catalog and of the variable `table`, which
-- `load_table` sets. `D` is the data of pyarrow.
pub record Catalog (T D : Type 0) : Type 0 where
  pub columns : D → List String
  pub load_table : Action Error T
  pub create : List String → Props.Properties → Action Error T
  pub append : D → Props.Properties → Action Error T
  pub overwrite : D → RowFilter → Props.Properties → Action Error T
  pub upsert : D → UpsertOptions → Action Error T
  pub schema_api : Columns.Tables T
  pub spec_api : Spec.Tables T
  pub properties_api : Props.Tables T

abbrev pub or_nothing : Option Props.Properties → Props.Properties
or_nothing none = []
or_nothing (some properties) = properties

-- `base_properties`, with the partition's key.
unfoldable pub snapshot_properties : Config → Props.Properties
snapshot_properties config =
    let base =
      ("created-by", "dagster")
      ∷ ("dagster-run-id", config.dagster_run_id)
      ∷ ("pyiceberg-version", config.pyiceberg_version)
      ∷ ("dagster-iceberg-version", config.dagster_iceberg_version)
      ∷ [] in
    elim config.dagster_partition_key [
      | none ↦ base
      | some key ↦ put base "dagster-partition-key" key
    ]

module _ {Time : Type 0} where
  -- The dimensions, if every one has an expression.
  abbrev named :
      Option String
      → Partitions Time
      → Option (List (Dimension Time))
      → Option (List (Dimension Time))
  named (some expr) partitions (some rest) =
      some (record { partition_expr = expr; partitions = partitions } ∷ rest)
  named _ partitions _ = none

  unfoldable pub all_named : List (SliceDimension Time) → Option (List (Dimension Time))
  all_named [] = some []
  all_named (d ∷ ds) = named d.partition_expr d.partitions (all_named ds)

  -- `partition_dimensions`: none for an empty slice.
  unfoldable pub dimensions_of :
      List (SliceDimension Time) → Result Error (Option (List (Dimension Time)))
  dimensions_of slice = if is_empty slice then ok none else elim (all_named slice) [
    | none ↦ err (value_error unmapped_partition)
    | some ds ↦ ok (some ds)
  ]

  abbrev pub is_given : Option (List (Dimension Time)) → Bool
  is_given none = false
  is_given (some ds) = true

  abbrev pub or_no_dimensions : Option (List (Dimension Time)) → List (Dimension Time)
  or_no_dimensions none = []
  or_no_dimensions (some ds) = ds

  -- The loop that looks for each dimension's column in the data.
  unfoldable pub check_columns : List String → List (Dimension Time) → Option Error
  check_columns names [] = none
  check_columns names (d ∷ ds) =
      let rest = check_columns names ds in
      if contains names d.partition_expr
      then rest
      else some (value_error (missing_field d.partition_expr))

-- The last expression of `get_expression_row_filter`.
abbrev pub filter_of : List Expression → Result Error RowFilter
filter_of [] = err index_error
filter_of (p ∷ []) = ok (one_of p)
filter_of (p ∷ q ∷ ps) = ok (all_of (p ∷ q ∷ ps))

-- `table_exists`, with what follows it. Any other exception goes up.
abbrev pub existing_or :
    {T : Type 0} → Action Error T → Action Error T → Option Error × T → Option Error × T
existing_or existing new (none, t) = existing t
existing_or existing new (some e, t) = if is_no_such_table e then new t else (some e, t)

-- From the dimensions on.
abbrev pub checked : {T : Type 0} → Option Error → Action Error T → Action Error T
checked none next t = next t
checked (some e) next t = (some e, t)

module _ {Time Day : Type 0} (clock : Clock Time Day) (casts : Casts Time) where
  -- `get_expression_row_filter`
  unfoldable pub get_expression_row_filter :
      Schema → List PartitionField → List (Dimension Time) → Result Error RowFilter
  get_expression_row_filter schema spec ds = do
    filters ←
        partition_dimensions_to_filters clock casts (expression_mapper clock) schema (some spec) ds
    filter_of filters

module _ {T D Time Day : Type 0} (api : Catalog T D) (clock : Clock Time Day)
    (casts : Casts Time) where
  unfoldable pub row_filter : Option (List (Dimension Time)) → T → Result Error RowFilter
  row_filter none t = ok always_true
  row_filter (some ds) t =
      get_expression_row_filter clock casts (api.spec_api.schema t) (api.spec_api.spec t) ds

module _ {T D : Type 0} (api : Catalog T D) where
  unfoldable pub if_exists : Action Error T → Action Error T → Action Error T
  if_exists existing new t = existing_or existing new (api.load_table t)

module _ {T D : Type 0} (api : Catalog T D) (R : Retrying Error T) where
  -- `create_table`
  unfoldable pub create_table : List String → Props.Properties → Action Error T
  create_table names properties =
      execute (api.create names properties) skip R 3 is_create_conflict >> api.load_table

  -- `update_table_properties`, from those that the table has at that time.
  unfoldable pub update_properties_of : Option Props.Properties → Action Error T
  update_properties_of none t = (none, t)
  update_properties_of (some properties) t =
      Props.update_table_properties api.properties_api R (api.properties_api.properties t)
        properties t

  unfoldable pub append_to_table : D → Props.Properties → Action Error T
  append_to_table d properties =
      execute (api.append d properties) api.spec_api.refresh R 3 is_commit_failed

  unfoldable pub overwrite_table : D → RowFilter → Props.Properties → Action Error T
  overwrite_table d filter properties =
      execute (api.overwrite d filter properties) api.spec_api.refresh R 3 is_commit_failed

  unfoldable pub upsert_to_table : D → UpsertOptions → Action Error T
  upsert_to_table d options =
      execute (api.upsert d options) api.spec_api.refresh R 3 is_commit_failed

  -- The write, by its mode.
  unfoldable pub write : Config → D → RowFilter → WriteMode → Option UpsertOptions → Action Error T
  write config d filter append_mode options t = append_to_table d (snapshot_properties config) t
  write config d filter overwrite_mode options t =
      overwrite_table d filter (snapshot_properties config) t
  write config d filter upsert_mode none t = (some (value_error no_upsert_options), t)
  write config d filter upsert_mode (some options) t = upsert_to_table d options t

  abbrev pub write_filtered : Config → D → Result Error RowFilter → Action Error T
  write_filtered config d (err e) t = (some e, t)
  write_filtered config d (ok filter) t =
      write config d filter config.write_mode config.upsert_options t

module _ {T D Time : Type 0} (api : Catalog T D) (cal : Calendar Time) (R : Retrying Error T) where
  abbrev pub update_spec_of : Config → String → List (Dimension Time) → Action Error T
  update_spec_of config mode ds =
      Spec.update_table_partition_spec cal api.spec_api R ds mode config.partition_field_name_prefix

  -- A table that is there. Its spec is looked at before its schema is updated.
  unfoldable pub update_spec_if : Config → Option (List (Dimension Time)) → Bool → Action Error T
  update_spec_if config ds has_spec =
      if is_given ds || has_spec
      then api.spec_api.refresh
        >> update_spec_of config config.partition_spec_update_mode (or_no_dimensions ds)
      else skip

  unfoldable pub update_existing :
      Config → Option (List (Dimension Time)) → List String → Action Error T
  update_existing config ds names t =
      (Columns.update_table_schema api.schema_api R config.schema_update_mode names
          >> update_spec_if config ds (not (is_empty (api.spec_api.spec t)))
          >> update_properties_of api R config.table_properties)
        t

  -- A table that is new.
  unfoldable pub create_new : Config → Option (List (Dimension Time)) → List String → Action Error T
  create_new config ds names =
      create_table api R names (or_nothing config.table_properties)
      >> (if is_given ds then update_spec_of config "update" (or_no_dimensions ds) else skip)

module _ {T D Time Day : Type 0} (api : Catalog T D) (clock : Clock Time Day) (casts : Casts Time)
    (R : Retrying Error T) where
  unfoldable pub filter_and_write : Config → D → Option (List (Dimension Time)) → Action Error T
  filter_and_write config d ds t = write_filtered api R config d (row_filter api clock casts ds t) t

module _ {T D Time Day : Type 0} (api : Catalog T D) (cal : Calendar Time) (clock : Clock Time Day)
    (casts : Casts Time) (R : Retrying Error T) where
  abbrev pub write_slice :
      Config → D → Result Error (Option (List (Dimension Time))) → Action Error T
  write_slice config d (err e) t = (some e, t)
  write_slice config d (ok ds) t =
      checked (check_columns (api.columns d) (or_no_dimensions ds))
        (if_exists api (api.load_table >> update_existing api cal R config ds (api.columns d))
            (create_new api cal R config ds (api.columns d))
          >> filter_and_write api clock casts R config d ds)
        t

  -- `table_writer`
  unfoldable pub table_writer : Config → List (SliceDimension Time) → D → Action Error T
  table_writer config slice d = write_slice config d (dimensions_of slice)
