-- ===== src/Iceberg/Partitions/Mapper.antt =====
-- `PartitionMapper`: how the dimensions of an asset differ from the partition spec of its table.
use community_integrations.Base.{
  ℕ, not, Bool, true, false, String, List, [], ◌∷◌, map, Option, none, some, ◌==◌, contains, nat_eq,
  string_eq, option_eq, if◌then◌else◌, Result, ok, err, ◌>>=◌, ◌>>◌, keep_if,
}
use community_integrations.Base.Dict.{Dict, put, values}
use community_integrations.Base.Lists.{length, ltb, keep, find, is_empty, difference}
use community_integrations.Iceberg.Error.{
  Error, value_error, stop_iteration, unknown_column, no_partition_dimensions, not_time_typed,
  not_text_typed, unsupported_partition, many_time_partitions,
}
use community_integrations.Iceberg.Window.{Calendar, diff_to_transformation, transform_eq}
use community_integrations.Iceberg.Partitions.{
  Column, Schema, PartitionField, Partitions, Dimension, time_window, keys, other_partitions,
  column_by_id, is_time_type, is_text_type,
}

-- `_get_partition_field_by_source_column`
unfoldable pub field_by_source : List PartitionField → ℕ → Option PartitionField
field_by_source spec i = find (λ f. f.source_id == i) spec

unfoldable pub partition_field_by_source_column :
    Schema → List PartitionField → String → Option PartitionField
partition_field_by_source_column schema spec name = elim (schema.find_field name) [
  | none ↦ none
  | some c ↦ field_by_source spec c.field_id
]

-- `map_partition_spec_to_fields`: `next(iter(…))` raises where no column has the source's id.
unfoldable pub spec_to_fields_from :
    List PartitionField → Schema → Dict ℕ String → Result Error (Dict ℕ String)
spec_to_fields_from [] schema d = ok d
spec_to_fields_from (f ∷ spec) schema d = elim (column_by_id schema.fields f.source_id) [
  | none ↦ err stop_iteration
  | some c ↦ spec_to_fields_from spec schema (put d f.source_id c.name)
]

unfoldable pub map_partition_spec_to_fields :
    List PartitionField → Schema → Result Error (Dict ℕ String)
map_partition_spec_to_fields spec schema = spec_to_fields_from spec schema []

-- The columns' names are searched by id; a field of no column is left alone.
abbrev pub is_deleted : Schema → List String → PartitionField → Bool
is_deleted schema current f = elim (column_by_id schema.fields f.source_id) [
  | none ↦ false
  | some c ↦ not (contains current c.name)
]

-- `self`: the table's schema and spec, and the slice's dimensions (`None` counts as none).
pub record PartitionMapper (Time : Type 0) : Type 0 where
  pub schema : Schema
  pub spec : List PartitionField
  pub dimensions : List (Dimension Time)

module _ {Time : Type 0} where
  abbrev pub is_time_window : Dimension Time → Bool
  is_time_window d = elim d.partitions [ time_window _ _ ↦ true | _ ↦ false ]

  -- One round of the loop that checks the column types.
  unfoldable pub check_type : String → Partitions Time → Column → Result Error (Unit {0})
  check_type expr (time_window _ _) c =
      if is_time_type c.field_type then ok tt else err (value_error (not_time_typed expr))
  check_type expr (keys _) c =
      if is_text_type c.field_type then ok tt else err (value_error (not_text_typed expr))
  check_type expr other_partitions c = err (value_error unsupported_partition)

  unfoldable pub check_types : Schema → List (Dimension Time) → Result Error (Unit {0})
  check_types schema [] = ok tt
  check_types schema (d ∷ ds) = elim (schema.find_field d.partition_expr) [
    | none ↦ err (value_error (unknown_column d.partition_expr))
    | some c ↦ check_type d.partition_expr d.partitions c >> check_types schema ds
  ]

  unfoldable pub get_dimensions : PartitionMapper Time → Bool → Result Error (List (Dimension Time))
  get_dimensions m allow_empty =
      if is_empty m.dimensions
      then (if allow_empty then ok [] else err (value_error no_partition_dimensions))
      else (check_types m.schema m.dimensions >> ok m.dimensions)

  unfoldable pub dimension_names : PartitionMapper Time → Bool → Result Error (List String)
  dimension_names m allow_empty = do
    ds ← get_dimensions m allow_empty
    ok (map (λ d. d.partition_expr) ds)

  unfoldable pub new_partition_field_names : PartitionMapper Time → Result Error (List String)
  new_partition_field_names m = do
    names ← dimension_names m false
    fields ← map_partition_spec_to_fields m.spec m.schema
    ok (difference names (values fields))

  unfoldable pub deleted_partition_field_names : PartitionMapper Time → Result Error (List String)
  deleted_partition_field_names m = do
    fields ← map_partition_spec_to_fields m.spec m.schema
    names ← dimension_names m true
    ok (difference (values fields) names)

  unfoldable pub time_partitions : PartitionMapper Time → Result Error (List (Dimension Time))
  time_partitions m = do
    ds ← get_dimensions m false
    let found = keep is_time_window ds
    if ltb 1 (length found) then err (value_error many_time_partitions) else ok found

  -- The conditions of the comprehensions are evaluated anew for each dimension.
  unfoldable pub new_dimensions : PartitionMapper Time → Result Error (List (Dimension Time))
  new_dimensions m = do
    ds ← get_dimensions m true
    keep_if (λ d. new_partition_field_names m >>= λ names. ok (contains names d.partition_expr)) ds

  unfoldable pub deleted_fields : PartitionMapper Time → Result Error (List PartitionField)
  deleted_fields m = do
    current ← dimension_names m true
    ok (keep (is_deleted m.schema current) m.spec)

module _ {Time : Type 0} (cal : Calendar Time) where
  -- What `updated_dagster_time_partition_field` says of the one time partition.
  unfoldable pub updated_field :
      PartitionMapper Time → String → Partitions Time → Result Error (Option String)
  updated_field m expr (time_window start end) = do
    wanted ← diff_to_transformation cal start end
    ok (elim (partition_field_by_source_column m.schema m.spec expr) [
      | none ↦ none
      | some f ↦ if wanted == f.transform then none else some expr
    ])
  updated_field m expr _ = ok none

  unfoldable pub updated_time_field : PartitionMapper Time → Result Error (Option String)
  updated_time_field m = do
    found ← time_partitions m
    elim found [ [] ↦ ok none | d ∷ _ ↦ updated_field m d.partition_expr d.partitions ]

  unfoldable pub updated_dimensions : PartitionMapper Time → Result Error (List (Dimension Time))
  updated_dimensions m = do
    ds ← get_dimensions m true
    keep_if (λ d. updated_time_field m >>= λ field. ok (field == some d.partition_expr)) ds
