-- ===== src/Iceberg/Writer/Tests.antt =====
-- Runs over a table of one day, by an asset of the next.
use community_integrations.Base.{
  ◌≡◌, ◌≢◌, refl, not, Bool, true, false, String, List, [], ◌∷◌, ◌++◌, Option, none, some, ◌&&◌,
  ◌||◌, ◌==◌, contains, string_eq, nat_eq, ok, keep_if, option_eq, list_eq, inl, inr,
}
use community_integrations.Base.Lists.{keep, any, find, difference, dedup, leb}
use community_integrations.Base.Sorting.{sort, str_le}
use community_integrations.Base.Dict.{put, values}
use community_integrations.Iceberg.Error.{Error, value_error, missing_field}
use community_integrations.Iceberg.Retry.{execute}
use community_integrations.Iceberg.Retry.Model.{counted, counted-IsRetrying}
use community_integrations.Iceberg.Window.{diff_to_transformation, transform_eq}
use community_integrations.Iceberg.Partitions.{Dimension, time_window, keys}
use community_integrations.Iceberg.Partitions.Mapper
use community_integrations.Iceberg.Partitions.Updater
use community_integrations.Iceberg.Partitions.Model.{schema, distinct, added_fields, store}
use community_integrations.Iceberg.Predicates as Predicates
use community_integrations.Iceberg.Predicates.{Bound, at_time}
use community_integrations.Iceberg.Predicates.Select.{selects, selects_all}
use community_integrations.Iceberg.Predicates.Model.{
  Instant, midnight, noon, next_midnight, Date, clock, Row, rows, reads, casts, casts-IsCasts,
}
use community_integrations.Iceberg.Schema as Columns
use community_integrations.Iceberg.Writer
use community_integrations.Iceberg.Writer.{
  Config, append_mode, overwrite_mode, upsert_mode, SliceDimension, dimensions_of, table_writer,
}
use community_integrations.Iceberg.Writer.Rows.{is_in_slice}
use community_integrations.Iceberg.Writer.Overwrite.{table_writer_overwritten}
use community_integrations.Iceberg.Writer.Names.{table_writer_names}
use community_integrations.Iceberg.Writer.Errors.{table_writer_missing, table_writer_no_options}
use community_integrations.Iceberg.Writer.Model.{
  World, Data, catalog, contents, catalog-IsCatalog, catalog-KeepsNames, days, no_fields,
}

abbrev config : Config
config = record {
  schema_update_mode = "update";
  partition_spec_update_mode = "update";
  dagster_run_id = "run";
  partition_field_name_prefix = "part";
  dagster_partition_key = some "2024-01-01";
  table_properties = none;
  write_mode = overwrite_mode;
  upsert_options = none;
  pyiceberg_version = "0.10";
  dagster_iceberg_version = "0.3";
}

abbrev slice : List (SliceDimension Instant)
slice =
    record { partition_expr = some "ts"; partitions = time_window midnight next_midnight }
    ∷ record { partition_expr = some "country"; partitions = keys ("be" ∷ "nl" ∷ []) }
    ∷ []

abbrev ds : List (Dimension Instant)
ds =
    record { partition_expr = "ts"; partitions = time_window midnight next_midnight }
    ∷ record { partition_expr = "country"; partitions = keys ("be" ∷ "nl" ∷ []) }
    ∷ []

abbrev data_in : Data
data_in = record {
  names = "ts" ∷ "region" ∷ "country" ∷ [];
  rows = λ row. row.country == "be" && leb 1 (Predicates.Model.rank row.ts);
}

-- Every row is stored, in a table without a spec.
abbrev full : World
full = record {
  exists = true;
  names = "ts" ∷ "country" ∷ [];
  spec = no_fields;
  properties = [];
  stored = λ row. true;
}

run : Option Error × (Row → Bool)
unfolding table_writer Writer.write Writer.overwrite_table Writer.filter_and_write
    Writer.update_existing Writer.create_new Writer.update_spec_if Writer.update_properties_of
    Writer.create_table Writer.if_exists Writer.row_filter Writer.get_expression_row_filter
    Writer.check_columns Writer.dimensions_of Writer.all_named Writer.snapshot_properties
    Columns.update_table_schema Columns.update_schema Columns.has_changes Columns.schema_updates
    Columns.deleted_columns Columns.new_columns sort str_le list_eq
    Predicates.partition_dimensions_to_filters Predicates.predicates_of Predicates.predicate_for
    Predicates.time_window_partition_filter Predicates.partition_filter Predicates.expression_mapper
    Predicates.bound_for Updater.update_table_partition_spec Updater.update_spec
    Updater.update_table_spec Updater.has_spec_changes Updater.changes Updater.record_block
    Updater.record_changes Updater.record_all Updater.spec_new Updater.spec_update
    Updater.spec_delete Updater.transform_for Updater.partition_field_name_for Mapper.new_dimensions
    Mapper.updated_dimensions Mapper.deleted_fields Mapper.updated_time_field Mapper.updated_field
    Mapper.time_partitions Mapper.new_partition_field_names Mapper.dimension_names
    Mapper.get_dimensions Mapper.check_types Mapper.check_type Mapper.map_partition_spec_to_fields
    Mapper.spec_to_fields_from Mapper.partition_field_by_source_column Mapper.field_by_source
    diff_to_transformation keep_if execute counted find keep any difference dedup put values
    string_eq nat_eq option_eq transform_eq distinct added_fields store no_fields
    community_integrations.Base.Dict.keys
run =
    let (e, t) = table_writer catalog days clock casts counted config slice data_in full in
    (e, t.stored)

abbrev belgian : Row
belgian = record { ts = at_time noon; country = "be" }

abbrev dutch : Row
dutch = record { ts = at_time noon; country = "nl" }

ran : run.0 ≡ none
unfolding run
ran = refl

-- The Dutch row of the day is gone, the German one is left.
dutch_gone : run.1 dutch ≡ false
unfolding run selects selects_all Predicates.Model.read_text
dutch_gone = refl

german_left : run.1 (record { ts = at_time noon; country = "de" }) ≡ true
unfolding run selects selects_all Predicates.Model.read_text
german_left = refl

ended : (table_writer catalog days clock casts counted config slice data_in full).0 ≡ none
unfolding run
ended = refl

table_writer_overwritten_example :
    let u = (table_writer catalog days clock casts counted config slice data_in full).1 in
    (ds : Option (List (Dimension Instant))) × (dimensions_of slice ≡ ok ds)
    × ((row : Row)
        → contents.has u row ≡ (
            contents.data_has data_in row
            || contents.has full row && not (is_in_slice clock rows row schema ds)))
table_writer_overwritten_example =
    table_writer_overwritten catalog-IsCatalog days counted-IsRetrying clock casts-IsCasts reads
      config refl slice data_in full ended

table_writer_names_example :
    contains
      (table_writer catalog days clock casts counted config slice data_in full).1.names
      "region"
    ≡ contains data_in.names "region"
table_writer_names_example =
    table_writer_names catalog-KeepsNames days counted-IsRetrying clock casts config slice data_in
      full ended "region"

abbrev narrow : Data
narrow = record { names = "ts" ∷ []; rows = λ row. true }

given : dimensions_of slice ≡ ok (some ds)
unfolding dimensions_of Writer.all_named
given = refl

country_missing : contains narrow.names "country" ≡ false
unfolding string_eq
country_missing = refl

table_writer_missing_example :
    (k : String) × (contains narrow.names k ≡ false)
    × (table_writer catalog days clock casts counted config slice narrow full
        ≡ (some (value_error (missing_field k)), full))
table_writer_missing_example =
    table_writer_missing catalog days clock casts counted config slice narrow full ds
      (record { partition_expr = "country"; partitions = keys ("be" ∷ "nl" ∷ []) }) given
      (inr (inl refl)) country_missing

abbrev upserting : Config
upserting = record config { write_mode = upsert_mode }

table_writer_no_options_example :
    (table_writer catalog days clock casts counted upserting slice data_in full).0 ≢ none
table_writer_no_options_example =
    table_writer_no_options catalog days clock casts counted upserting refl refl data_in slice full
