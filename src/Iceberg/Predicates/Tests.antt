-- ===== src/Iceberg/Predicates/Tests.antt =====
-- The theorems on an asset with a daily window and a country.
use community_integrations.Base.{
  ◌≡◌, refl, ℕ, String, List, [], ◌∷◌, true, false, some, none, ok, nat_eq, string_eq, arith, err,
  Bool, Result, if◌then◌else◌, ◌==◌,
}
use community_integrations.Base.Text.{◌<>◌}
use community_integrations.Base.Lists.{find, All}
use community_integrations.Base.Dict.{Dict, put}
use community_integrations.Iceberg.Partitions.{PartitionField, Dimension, time_window, keys}
use community_integrations.Iceberg.Partitions.Mapper.{
  map_partition_spec_to_fields, spec_to_fields_from, check_types, check_type,
}
use community_integrations.Iceberg.Partitions.Model.{schema}
use community_integrations.Iceberg.Window.{day, identity}
use community_integrations.Iceberg.Predicates.{
  at_time, Expression, expression_mapper, partition_dimensions_to_filters, sql_filters,
}
use community_integrations.Iceberg.Predicates.Select.{selects_all, is_in_partition}
use community_integrations.Iceberg.Predicates.Made.{
  CanBeFiltered, partition_dimensions_to_filters_exact,
}
use community_integrations.Iceberg.Predicates.Model.{
  Instant, midnight, noon, next_midnight, clock, Row, rows, reads, casts, casts-IsCasts,
}
use community_integrations.Iceberg.Predicates.Sql.{sql_filters_merge}

sql_filters_merge_example :
    sql_filters "country" ("be" ∷ "nl" ∷ "de" ∷ [])
    ≡ sql_filters "country" ("be" ∷ ("nl" <> "' OR " <> "country" <> " = '" <> "de") ∷ [])
sql_filters_merge_example = sql_filters_merge "country" "be" "nl" "de"

abbrev spec : List PartitionField
spec =
    record { source_id = 1; name = "part_ts"; transform = day }
    ∷ record { source_id = 3; name = "part_country"; transform = identity }
    ∷ []

abbrev fields : Dict ℕ String
fields = (1, "ts") ∷ (3, "country") ∷ []

fields_known : map_partition_spec_to_fields spec schema ≡ ok fields
unfolding map_partition_spec_to_fields spec_to_fields_from find put nat_eq
fields_known = refl

abbrev asset : List (Dimension Instant)
asset =
    record { partition_expr = "ts"; partitions = time_window midnight next_midnight }
    ∷ record { partition_expr = "country"; partitions = keys ("be" ∷ "nl" ∷ []) }
    ∷ []

typed : check_types schema asset ≡ ok tt
unfolding check_types check_type find string_eq
typed = refl

can_be_filtered : All (CanBeFiltered schema (some fields)) asset
unfolding find string_eq nat_eq community_integrations.Base.Dict.keys
can_be_filtered = ((refl, λ c h. ground arith), ((refl, λ c h. ground arith), tt))

partition_dimensions_to_filters_exact_example :
    (ps : List Expression) × (partition_dimensions_to_filters clock casts
        (expression_mapper clock)
        schema
        (some spec)
        asset
      ≡ ok ps)
    × ((row : Row) → selects_all rows row ps ≡ is_in_partition clock rows row schema asset)
partition_dimensions_to_filters_exact_example =
    partition_dimensions_to_filters_exact clock casts-IsCasts rows reads schema spec fields
      fields_known asset typed can_be_filtered

abbrev belgian : Row
belgian = record { ts = at_time noon; country = "be" }

belgian_in : is_in_partition clock rows belgian schema asset ≡ true
unfolding is_in_partition find string_eq
belgian_in = refl
