-- ===== src/Iceberg/Handler.antt =====
-- handler.py: what a type handler of an asset hands to `table_writer`. Log messages, the metadata of the
-- snapshot that it adds to the output, and the reading of inputs are left out.
pub mod Laws
pub mod Chosen
pub mod Resolved
mod Tests
use community_integrations.Base.{
  String, true, false, List, [], ◌∷◌, Option, none, some, ◌==◌, string_eq, if◌then◌else◌, Result,
  ok, err, ◌>>=◌,
}
use community_integrations.Base.Action.{Action, ◌>>◌}
use community_integrations.Base.Dict.{Dict, put}
use community_integrations.Base.Lists.{is_empty}
use community_integrations.Iceberg.Error.{
  Error, value_error, no_resource_config, unexpected_config, untyped_options, no_options_given,
  invalid_write_mode,
}
use community_integrations.Iceberg.Predicates.{Clock, Casts}
use community_integrations.Iceberg.Properties.{Properties}
use community_integrations.Iceberg.Retry.{Retrying}
use community_integrations.Iceberg.Window.{Calendar}
use community_integrations.Iceberg.Writer.{
  WriteMode, append_mode, overwrite_mode, upsert_mode, UpsertOptions, Config, Catalog,
  SliceDimension, table_writer,
}

-- The value of "upsert_options": a dict, a model, or something else. `V` is the values of a dict.
pub data OptionsValue (V : Type 0) : Type 0 where
  dict_value : Dict String V → OptionsValue V
  model_value : UpsertOptions → OptionsValue V
  other_value : OptionsValue V

-- The entries of an asset's metadata that are read, by their keys.
pub record DefinitionMetadata (V : Type 0) : Type 0 where
  pub table_properties : Option Properties
  pub partition_spec_update_mode : Option String
  pub schema_update_mode : Option String
  pub partition_field_name_prefix : Option String
  pub write_mode : Option String
  pub upsert_options : Option (OptionsValue V)

pub record OutputMetadata (V : Type 0) : Type 0 where
  pub write_mode : Option String
  pub upsert_options : Option (OptionsValue V)

-- `resource_config`: None, or its "config", which is a dict with a prefix or without, an
-- `IcebergCatalogConfig`, or something else.
pub data ResourceConfig : Type 0 where
  no_config other_config : ResourceConfig
  dict_config : Option String → ResourceConfig
  catalog_config : String → ResourceConfig

pub record OutputContext (V : Type 0) : Type 0 where
  pub definition_metadata : DefinitionMetadata V
  pub output_metadata : OutputMetadata V
  pub resource_config : ResourceConfig
  pub run_id : String
  pub partition_key : Option String

-- `d.get(k, default)`
abbrev pub get_or : {A : Type 0} → A → Option A → A
get_or default none = default
get_or default (some value) = value

abbrev config_prefix : ResourceConfig → Result Error String
config_prefix no_config = err (value_error no_resource_config)
config_prefix other_config = err (value_error unexpected_config)
config_prefix (dict_config prefix) = ok (get_or "part" prefix)
config_prefix (catalog_config prefix) = ok prefix

-- `_get_partition_field_name_prefix`
unfoldable pub get_partition_field_name_prefix :
    ResourceConfig → Option String → Result Error String
get_partition_field_name_prefix config definition = do
  prefix ← config_prefix config
  ok (get_or prefix definition)

-- `WriteMode(text)`, which is none where it raises.
unfoldable pub write_mode_of : String → Option WriteMode
write_mode_of text =
    if text == "append"
    then some append_mode
    else if text == "overwrite"
    then some overwrite_mode
    else if text == "upsert"
    then some upsert_mode
    else none

abbrev pub mode_or : WriteMode → Option String → Option WriteMode
mode_or mode none = some mode
mode_or mode (some text) = write_mode_of text

abbrev output_mode : Option String → Option WriteMode → Result Error WriteMode
output_mode output none = err (value_error (invalid_write_mode output))
output_mode output (some mode) = ok mode

abbrev mode_over : Option String → Option WriteMode → Result Error WriteMode
mode_over output none = err (value_error (invalid_write_mode output))
mode_over output (some mode) = output_mode output (mode_or mode output)

-- `_get_write_mode`
unfoldable pub get_write_mode : Option String → Option String → Result Error WriteMode
get_write_mode definition output = mode_over output (mode_or overwrite_mode definition)

module _ {V : Type 0} where
  -- `{**first, **second}`
  unfoldable pub merge : Dict String V → Dict String V → Dict String V
  merge first [] = first
  merge first ((k, v) ∷ second) = merge (put first k v) second

-- `UpsertOptions.model_validate`, of options that are not empty.
abbrev pub validated :
    {V : Type 0}
    → (Dict String V → Result Error UpsertOptions)
    → Dict String V
    → Result Error (Option UpsertOptions)
validated model_validate options =
    if is_empty options
    then err (value_error no_options_given)
    else (do made ← model_validate options; ok (some made))

-- `model_dump` and `model_validate` are pydantic's.
module _ {V : Type 0} (model_dump : UpsertOptions → Dict String V) where
  -- `parse_upsert_options`, of `{}` where the metadata has none
  unfoldable pub parse_upsert_options : Option (OptionsValue V) → Result Error (Dict String V)
  parse_upsert_options none = ok []
  parse_upsert_options (some (dict_value options)) = ok options
  parse_upsert_options (some (model_value options)) = ok (model_dump options)
  parse_upsert_options (some other_value) = err (value_error untyped_options)

module _ {V : Type 0} (model_dump : UpsertOptions → Dict String V)
    (model_validate : Dict String V → Result Error UpsertOptions) where
  -- `_get_upsert_options`
  unfoldable pub get_upsert_options :
      Option (OptionsValue V)
      → Option (OptionsValue V)
      → WriteMode
      → Result Error (Option UpsertOptions)
  get_upsert_options definition output append_mode = ok none
  get_upsert_options definition output overwrite_mode = ok none
  get_upsert_options definition output upsert_mode = do
    of_output ← parse_upsert_options model_dump output
    of_definition ← parse_upsert_options model_dump definition
    validated model_validate (merge of_definition of_output)

  -- The arguments of `table_writer`, but for the slice, the data and the catalog.
  unfoldable pub writer_config : String → String → OutputContext V → Result Error Config
  writer_config pyiceberg_version dagster_iceberg_version context = do
    let definition = context.definition_metadata
    prefix ←
        get_partition_field_name_prefix context.resource_config
          definition.partition_field_name_prefix
    mode ← get_write_mode definition.write_mode context.output_metadata.write_mode
    options ←
        get_upsert_options definition.upsert_options context.output_metadata.upsert_options mode
    ok (record {
      schema_update_mode = get_or "error" definition.schema_update_mode;
      partition_spec_update_mode = get_or "error" definition.partition_spec_update_mode;
      dagster_run_id = context.run_id;
      partition_field_name_prefix = prefix;
      dagster_partition_key = context.partition_key;
      table_properties = some (get_or [] definition.table_properties);
      write_mode = mode;
      upsert_options = options;
      pyiceberg_version = pyiceberg_version;
      dagster_iceberg_version = dagster_iceberg_version;
    })

module _ {T D Time Day : Type 0} (api : Catalog T D) (cal : Calendar Time) (clock : Clock Time Day)
    (casts : Casts Time) (R : Retrying Error T) where
  abbrev pub written : List (SliceDimension Time) → D → Result Error Config → Action Error T
  written slice data_in (err e) t = (some e, t)
  written slice data_in (ok config) t =
      (table_writer api cal clock casts R config slice data_in >> api.load_table) t

  -- `handle_output`; `to_arrow` has made the data of the object.
  unfoldable pub handle_output :
      {V : Type 0}
      → (UpsertOptions → Dict String V)
      → (Dict String V → Result Error UpsertOptions)
      → String
      → String
      → OutputContext V
      → List (SliceDimension Time)
      → D
      → Action Error T
  handle_output model_dump model_validate pyiceberg_version dagster_iceberg_version context slice
        data_in =
      written slice data_in
        (writer_config model_dump model_validate pyiceberg_version dagster_iceberg_version context)
