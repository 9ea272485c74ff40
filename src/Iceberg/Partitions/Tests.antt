-- ===== src/Iceberg/Partitions/Tests.antt =====
-- An asset that replaces an hourly partition by a daily one, drops a column and adds another.
use community_integrations.Base.{
  ℕ, ◌≡◌, refl, true, List, [], ◌∷◌, Option, none, nat_eq, string_eq, option_eq, keep_if,
}
use community_integrations.Base.Lists.{keep, any, find, difference, dedup}
use community_integrations.Base.Dict.{put, values}
use community_integrations.Iceberg.Error.{Error}
use community_integrations.Iceberg.Retry.{execute}
use community_integrations.Iceberg.Retry.Model.{counted, counted-IsRetrying}
use community_integrations.Iceberg.Window.{
  hour, day, identity, diff_to_transformation, transform_eq,
}
use community_integrations.Iceberg.Partitions.{PartitionField, Dimension, time_window, keys}
use community_integrations.Iceberg.Partitions.Mapper
use community_integrations.Iceberg.Partitions.Updater
use community_integrations.Iceberg.Partitions.Updater.{
  SpecUpdate, remove_field, add_field, Recorded, Tables, update_table_partition_spec,
}
use community_integrations.Iceberg.Partitions.Sync.{IsSynced}
use community_integrations.Iceberg.Partitions.Update.{
  update_table_partition_spec-IsSynced, update_table_partition_spec_error,
}
use community_integrations.Iceberg.Partitions.Model.{
  hours, schema, tables, tables-IsTables, Table, distinct, added_fields, store,
}

abbrev before_spec : List PartitionField
before_spec =
    record { source_id = 1; name = "part_ts"; transform = hour }
    ∷ record { source_id = 2; name = "part_region"; transform = identity }
    ∷ []

before_distinct : distinct before_spec ≡ true
unfolding distinct any string_eq
before_distinct = refl

abbrev before : Table
before = (before_spec, before_distinct)

abbrev asset : List (Dimension ℕ)
asset =
    record { partition_expr = "ts"; partitions = time_window 0 24 }
    ∷ record { partition_expr = "country"; partitions = keys ("nl" ∷ []) }
    ∷ []

run : Option Error × List PartitionField
unfolding update_table_partition_spec Updater.update_spec Updater.update_table_spec
    Updater.has_spec_changes Updater.changes Updater.record_block Updater.record_changes
    Updater.record_all Updater.spec_new Updater.spec_update Updater.spec_delete
    Updater.transform_for Updater.partition_field_name_for Mapper.new_dimensions
    Mapper.updated_dimensions Mapper.deleted_fields Mapper.updated_time_field Mapper.updated_field
    Mapper.time_partitions Mapper.new_partition_field_names Mapper.dimension_names
    Mapper.get_dimensions Mapper.check_types Mapper.check_type Mapper.map_partition_spec_to_fields
    Mapper.spec_to_fields_from Mapper.partition_field_by_source_column Mapper.field_by_source
    diff_to_transformation keep_if execute counted find keep any difference dedup put values
    string_eq nat_eq option_eq transform_eq distinct added_fields store
run =
    let (e, t) = update_table_partition_spec hours tables counted asset "update" "part" before in
    (e, t.0)

ran : run ≡ (
  none,
  record { source_id = 3; name = "part_country"; transform = identity }
      ∷ record { source_id = 1; name = "part_ts"; transform = day }
      ∷ [],
)
unfolding run
ran = refl

ended : (update_table_partition_spec hours tables counted asset "update" "part" before).0 ≡ none
unfolding run
ended = refl

update_table_partition_spec-IsSynced_example :
    let s = (update_table_partition_spec hours tables counted asset "update" "part" before).1 in
    IsSynced hours asset schema s.0
update_table_partition_spec-IsSynced_example =
    update_table_partition_spec-IsSynced hours tables-IsTables counted-IsRetrying asset "update"
      "part" before ended

update_table_partition_spec_error_example :
    (update_table_partition_spec hours tables counted asset "error" "part" before).1 ≡ before
update_table_partition_spec_error_example =
    update_table_partition_spec_error hours tables-IsTables counted-IsRetrying (λ t. t ≡ before)
      (λ t h. h) asset "part" before refl
