-- ===== src/Iceberg/Handler/Tests.antt =====
-- Handlers that append to a table that is new, and that upsert.
use community_integrations.Base.{
  ℕ, ◌≡◌, ◌≢◌, ◌⊎◌, refl, err, true, false, String, [], ◌∷◌, none, some, string_eq, Result, ok,
}
use community_integrations.Base.Dict.{Dict, get, keys, NodupKeys}
use community_integrations.Base.Action.{◌>>◌}
use community_integrations.Iceberg.Error.{Error, value_error, no_options_given}
use community_integrations.Iceberg.Retry.{execute}
use community_integrations.Iceberg.Retry.Model.{counted}
use community_integrations.Iceberg.Predicates.Model.{clock, casts}
use community_integrations.Iceberg.Writer
use community_integrations.Iceberg.Writer.{Config, UpsertOptions, upsert_mode, table_writer}
use community_integrations.Iceberg.Writer.Model.{World, Data, catalog, days, no_fields}
use community_integrations.Iceberg.Handler.{
  dict_value, OutputContext, dict_config, get_upsert_options, get_partition_field_name_prefix,
  get_write_mode, write_mode_of, writer_config, handle_output,
}
use community_integrations.Iceberg.Handler.Laws.{get_upsert_options_merged}
use community_integrations.Iceberg.Handler.Resolved.{
  IsResolved, IsRefused, handle_output-IsResolved,
}

abbrev options : UpsertOptions
options = record {
  join_cols = "ts" ∷ [];
  when_matched_update_all = true;
  when_not_matched_insert_all = true;
}

abbrev dump : UpsertOptions → Dict String ℕ
dump made = ("join_cols", 1) ∷ []

abbrev validate : Dict String ℕ → Result Error UpsertOptions
validate given = ok options

abbrev of_definition : Dict String ℕ
of_definition = ("join_cols", 1) ∷ ("when_matched_update_all", 0) ∷ []

abbrev of_output : Dict String ℕ
of_output = ("join_cols", 2) ∷ []

once : NodupKeys of_output
unfolding keys
once = (refl, tt)

get_upsert_options_merged_example :
    let result =
      get_upsert_options dump validate
        (some (dict_value of_definition))
        (some (dict_value of_output))
        upsert_mode in
    ((of_definition ≡ []) × (of_output ≡ []) × (result ≡ err (value_error no_options_given)))
    ⊎ (((of_definition ≢ []) ⊎ (of_output ≢ []))
        × (given : Dict String ℕ) × ((k : String)
            → get given k ≡ elim (get of_output k) [ some v ↦ some v | none ↦ get of_definition k ])
        × (((made : UpsertOptions) × (validate given ≡ ok made) × (result ≡ ok (some made)))
            ⊎ ((e : Error) × (validate given ≡ err e) × (result ≡ err e))))
get_upsert_options_merged_example =
    get_upsert_options_merged dump validate (some (dict_value of_definition))
      (some (dict_value of_output)) of_definition of_output refl refl once

abbrev context : OutputContext ℕ
context = record {
  definition_metadata = record {
    table_properties = none;
    partition_spec_update_mode = none;
    schema_update_mode = none;
    partition_field_name_prefix = none;
    write_mode = some "overwrite";
    upsert_options = none;
  };
  output_metadata = record { write_mode = some "append"; upsert_options = none };
  resource_config = dict_config none;
  run_id = "run";
  partition_key = none;
}

abbrev data_in : Data
data_in = record { names = "ts" ∷ "country" ∷ []; rows = λ row. true }

abbrev missing : World
missing = record {
  exists = false;
  names = [];
  spec = no_fields;
  properties = [];
  stored = λ row. false;
}

handle_output-IsResolved_example :
    let run =
      handle_output catalog days clock casts counted dump validate "0.10" "0.3" context [] data_in
        missing in
    ((config : Config) × IsResolved dump validate context config
      × (run
          ≡ (table_writer catalog days clock casts counted config [] data_in >> catalog.load_table)
              missing))
    ⊎ ((e : Error) × IsRefused dump validate context e × (run ≡ (some e, missing)))
handle_output-IsResolved_example =
    handle_output-IsResolved dump validate "0.10" "0.3" context catalog days clock casts counted []
      data_in missing

-- The output's mode is taken, not the definition's.
appended :
    (handle_output catalog days clock casts counted dump validate "0.10" "0.3" context [] data_in
      missing).0
    ≡ none
unfolding handle_output writer_config get_partition_field_name_prefix get_write_mode write_mode_of
    get_upsert_options table_writer Writer.write Writer.append_to_table Writer.filter_and_write
    Writer.create_new Writer.create_table Writer.if_exists Writer.row_filter Writer.check_columns
    Writer.dimensions_of Writer.snapshot_properties execute counted string_eq
appended = refl
