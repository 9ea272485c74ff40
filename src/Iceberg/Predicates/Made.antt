-- ===== src/Iceberg/Predicates/Made.antt =====
-- Which dimensions get a filter at all.
use community_integrations.Base.{
  ℕ, ◌≡◌, refl, arith, Bool, true, false, String, string_eq, List, [], ◌∷◌, map, Option, some,
  nat_eq, Result, ok, Option-cases, inl, inr,
}
use community_integrations.Base.Dict.{Dict}
use community_integrations.Base.Lists.{All}
use community_integrations.Iceberg.Error.{Error}
use community_integrations.Iceberg.Partitions.{
  ColumnType, Column, Schema, PartitionField, Partitions, Dimension, time_window, is_time_type,
  is_text_type, other_partitions,
}
use community_integrations.Iceberg.Partitions as Parts
use community_integrations.Iceberg.Partitions.Mapper.{
  check_types, check_type, map_partition_spec_to_fields,
}
use community_integrations.Iceberg.Predicates.{
  Bound, Clock, Casts, Expression, single, equal_to, at_least, less_than, both, any_of,
  expression_mapper, bound_for, partition_filter, time_window_partition_filter, predicate_for,
  is_foreign, predicates_of, partition_dimensions_to_filters,
}
use community_integrations.Iceberg.Predicates.Select.{
  IsCasts, Rows, selects_all, is_in_partition, partition_dimensions_to_filters-selects,
}

-- What a dimension must have for a filter: a column that the fields allow, and a key if it has keys.
abbrev has_key : {Time : Type 0} → Partitions Time → Bool
has_key (Parts.keys []) = false
has_key _ = true

-- A dimension whose column, if there is one, is among the fields, and that has a key.
abbrev pub CanBeFiltered :
    {Time : Type 0} → Schema → Option (Dict ℕ String) → Dimension Time → Type 0
CanBeFiltered schema fields d =
    (has_key d.partitions ≡ true)
    × ((c : Column) → schema.find_field d.partition_expr ≡ some c → is_foreign fields c ≡ false)

module _ {Time Day : Type 0} (clock : Clock Time Day) {casts : Casts Time}
    (law : IsCasts casts) where
  abbrev Made : Result Error Expression → Type 0
  Made r = (p : Expression) × (r ≡ ok p)

  predicate_for-Made :
      (expr : String) (parts : Partitions Time) (c : Column)
      → check_type expr parts c ≡ ok tt
      → has_key parts ≡ true
      → Made (
          predicate_for clock casts
            (expression_mapper clock)
            (record { partition_expr = expr; partitions = parts })
            c)
  unfolding predicate_for time_window_partition_filter partition_filter check_type expression_mapper
  predicate_for-Made expr (time_window start end) c typed keyed =
      let window = law.of_window start end in
      (
        both (at_least expr (clock.isoformat (bound_for clock c.field_type start)))
            (less_than expr (clock.isoformat (bound_for clock c.field_type end))),
        ground arith,
      )
  predicate_for-Made expr (Parts.keys []) c typed keyed = absurd (ground arith)
  predicate_for-Made expr (Parts.keys (k ∷ [])) c typed keyed =
      let given = law.of_keys (k ∷ []) in (single (equal_to expr k), ground arith)
  predicate_for-Made expr (Parts.keys (k ∷ l ∷ ks)) c typed keyed =
      let given = law.of_keys (k ∷ l ∷ ks) in
      (any_of (map (equal_to expr) (k ∷ l ∷ ks)), ground arith)
  predicate_for-Made expr other_partitions c typed keyed = absurd (ground arith)

  module _ (schema : Schema) (fields : Option (Dict ℕ String)) where
    predicates_of_made :
        (ds : List (Dimension Time))
        → check_types schema ds ≡ ok tt
        → All (CanBeFiltered schema fields) ds
        → (ps : List Expression) × (predicates_of clock casts
              (expression_mapper clock)
              schema
              fields
              ds
            ≡ ok ps)
    unfolding predicates_of check_types
    predicates_of_made [] typed can = ([], refl)
    predicates_of_made (d ∷ ds) typed can =
        elim (Option-cases (schema.find_field d.partition_expr)) [
          | inl unknown ↦ absurd (ground (arith, unknown))
          | inr (c, found) ↦
              let typed_first : check_type d.partition_expr d.partitions c ≡ ok tt =
                ground (arith, found) in
              let typed_rest : check_types schema ds ≡ ok tt = ground (arith, found) in
              let (p, made) =
                predicate_for-Made d.partition_expr d.partitions c typed_first can.0.0 in
              let (ps, others) = predicates_of_made ds typed_rest can.1 in
              let ours = can.0.1 c found in (p ∷ ps, ground (arith, found, made, others, ours))
        ]

  -- For a table whose spec can be read, and dimensions with columns of the types that suit them, each
  -- column among the spec's and no list of keys empty, filters are made, and together they select
  -- exactly the rows that are in the partition of every dimension.
  pub partition_dimensions_to_filters_exact :
      {Row : Type 0}
      → (rows : Rows Row (Bound Time Day))
      → ((b : Bound Time Day) → rows.read (clock.isoformat b) ≡ b)
      → (schema : Schema) (spec : List PartitionField) (fields : Dict ℕ String)
      → map_partition_spec_to_fields spec schema ≡ ok fields
      → (ds : List (Dimension Time)) → check_types schema ds ≡ ok tt
      → All (CanBeFiltered schema (some fields)) ds
      → (ps : List Expression) × (partition_dimensions_to_filters clock casts
            (expression_mapper clock)
            schema
            (some spec)
            ds
          ≡ ok ps)
        × ((row : Row) → selects_all rows row ps ≡ is_in_partition clock rows row schema ds)
  unfolding partition_dimensions_to_filters
  partition_dimensions_to_filters_exact rows reads schema spec fields known ds typed can =
      let (ps, made) = predicates_of_made schema (some fields) ds typed can in
      let all : partition_dimensions_to_filters clock casts (expression_mapper clock) schema
            (some spec) ds
          ≡ ok ps =
        ground (arith, known, made) in
      (
        ps,
        all,
        λ row.
            partition_dimensions_to_filters-selects clock rows row law reads schema (some spec) ds
              ps typed all,
      )
