-- ===== src/Iceberg/Predicates/Select.antt =====
-- The rows that the filters select.
use community_integrations.Base.{
  ℕ, ◌≡◌, refl, arith, not, Bool, true, false, String, string_eq, List, [], ◌∷◌, map, Option, none,
  some, contains, nat_eq, ok, ◌&&◌, ◌==◌, bind_returned, Option-cases, inl, inr,
}
use community_integrations.Base.Dict.{Dict}
use community_integrations.Base.Lists.{any}
use community_integrations.Iceberg.Partitions.{
  ColumnType, Column, Schema, PartitionField, Partitions, Dimension, time_window, date,
  is_time_type, is_text_type, other_partitions,
}
use community_integrations.Iceberg.Partitions as Parts
use community_integrations.Iceberg.Partitions.Mapper.{
  check_types, check_type, map_partition_spec_to_fields,
}
use community_integrations.Iceberg.Predicates.{
  Bound, at_time, on_day, Clock, Casts, Expression, Comparison, single, equal_to, at_least,
  less_than, both, any_of, expression_mapper, bound_for, partition_filter,
  time_window_partition_filter, predicate_for, predicate_on, predicates_of,
  partition_dimensions_to_filters,
}

-- What the casts give where the slice holds what they say.
pub record IsCasts {Time : Type 0} (casts : Casts Time) : Type 0 where
  pub of_window : (start end : Time) → casts.unpacked (time_window start end) ≡ ok (start, end)
  pub of_keys : (ks : List String) → casts.iterated (Parts.keys ks) ≡ ok ks

-- A row's columns, by their values; the order of times; and the time that a literal is read as.
pub record Rows (Row Moment : Type 0) : Type 0 where
  pub text : Row → String → String
  pub moment : Row → String → Moment
  pub not_after : Moment → Moment → Bool
  pub read : String → Moment

module _ {Row Moment : Type 0} (rows : Rows Row Moment) (row : Row) where
  -- What pyiceberg documents of a filter.
  abbrev pub passes : Comparison → Bool
  passes (equal_to column literal) = rows.text row column == literal
  passes (at_least column literal) = rows.not_after (rows.read literal) (rows.moment row column)
  passes (less_than column literal) =
      not (rows.not_after (rows.read literal) (rows.moment row column))

  unfoldable pub selects : Expression → Bool
  selects (single p) = passes p
  selects (both p q) = passes p && passes q
  selects (any_of ps) = any passes ps

  unfoldable pub selects_all : List Expression → Bool
  selects_all [] = true
  selects_all (p ∷ ps) = selects p && selects_all ps

  any-map :
      (column : String) (ks : List String)
      → any passes (map (equal_to column) ks) ≡ contains ks (rows.text row column)
  unfolding any
  any-map column [] = refl
  any-map column (k ∷ ks) = ground (arith, any-map column ks)

module _ {Row Time Day : Type 0} (clock : Clock Time Day) (rows : Rows Row (Bound Time Day))
    (row : Row) where
  -- From the first bound on, and before the second.
  abbrev pub is_between : Bound Time Day → Bound Time Day → Bound Time Day → Bool
  is_between start end moment = rows.not_after start moment && not (rows.not_after end moment)

  -- Whether a row is in the partition of a dimension, whose column has the type: a column of dates has
  -- a day that is in the window's days, and one of times has a time in it, without a zone.
  abbrev pub is_within : String → Partitions Time → ColumnType → Bool
  is_within expr (time_window start end) date =
      is_between (on_day (clock.day (clock.naive start))) (on_day (clock.day (clock.naive end)))
        (rows.moment row expr)
  is_within expr (time_window start end) _ =
      is_between (at_time (clock.naive start)) (at_time (clock.naive end)) (rows.moment row expr)
  is_within expr (Parts.keys ks) type = contains ks (rows.text row expr)
  is_within expr other_partitions type = false

  bounds_within :
      (expr : String) (start end : Time) (type : ColumnType)
      → is_between (bound_for clock type start) (bound_for clock type end) (rows.moment row expr)
        ≡ is_within expr (time_window start end) type
  unfolding bound_for
  bounds_within expr start end type = ground arith

  abbrev is_within_column : Dimension Time → Option Column → Bool
  is_within_column d none = false
  is_within_column d (some c) = is_within d.partition_expr d.partitions c.field_type

  unfoldable pub is_in_partition : Schema → List (Dimension Time) → Bool
  is_in_partition schema [] = true
  is_in_partition schema (d ∷ ds) =
      is_within_column d (schema.find_field d.partition_expr) && is_in_partition schema ds

  module _ {casts : Casts Time} (law : IsCasts casts)
      (reads : (b : Bound Time Day) → rows.read (clock.isoformat b) ≡ b) where
    filters-selects :
        (expr : String) (ks : List String) (p : Expression)
        → (expression_mapper clock).partition_filters expr ks ≡ ok p
        → selects rows row p ≡ contains ks (rows.text row expr)
    unfolding selects expression_mapper any
    filters-selects expr [] p h = cc
    filters-selects expr (k ∷ []) p h = ground arith
    filters-selects expr (k ∷ l ∷ ks) p h = ground (arith, any-map rows row expr (k ∷ l ∷ ks))

    predicate_for-selects :
        (expr : String) (parts : Partitions Time) (c : Column) (p : Expression)
        → check_type expr parts c ≡ ok tt
        → predicate_for clock casts
            (expression_mapper clock)
            (record { partition_expr = expr; partitions = parts })
            c
          ≡ ok p
        → selects rows row p ≡ is_within expr parts c.field_type
    unfolding predicate_for time_window_partition_filter partition_filter check_type selects
        expression_mapper
    predicate_for-selects expr (time_window start end) c p typed h =
        let window = law.of_window start end in
        let read_start = reads (bound_for clock c.field_type start) in
        let read_end = reads (bound_for clock c.field_type end) in
        let same = bounds_within expr start end c.field_type in ground arith
    predicate_for-selects expr (Parts.keys ks) c p typed h =
        let given = law.of_keys ks in let same = filters-selects expr ks p in ground arith
    predicate_for-selects expr other_partitions c p typed h = cc

    module _ (schema : Schema) (fields : Option (Dict ℕ String)) where
      predicates_of-selects :
          (ds : List (Dimension Time)) (ps : List Expression)
          → check_types schema ds ≡ ok tt
          → predicates_of clock casts (expression_mapper clock) schema fields ds ≡ ok ps
          → selects_all rows row ps ≡ is_in_partition schema ds
      unfolding predicates_of check_types selects_all is_in_partition
      predicates_of-selects [] ps typed h = ground arith
      predicates_of-selects (d ∷ ds) ps typed h =
          let (p, first, more) =
            bind_returned _
              (predicate_on clock casts (expression_mapper clock) fields d
                (schema.find_field d.partition_expr))
              h in
          let (qs, rest, all) =
            bind_returned _ (predicates_of clock casts (expression_mapper clock) schema fields ds)
              more in
          elim (Option-cases (schema.find_field d.partition_expr)) [
            | inl unknown ↦ absurd (ground (arith, unknown))
            | inr (c, found) ↦
                let typed_first : check_type d.partition_expr d.partitions c ≡ ok tt =
                  ground (arith, found) in
                let typed_rest : check_types schema ds ≡ ok tt = ground (arith, found) in
                let predicate : predicate_for clock casts (expression_mapper clock) d c ≡ ok p =
                  ground (arith, found) in
                let chosen =
                  predicate_for-selects d.partition_expr d.partitions c p typed_first predicate in
                let others = predicates_of-selects ds qs typed_rest rest in ground (arith, found)
          ]

    -- Where the dimensions have columns of the types that suit them and no exception is raised, the
    -- filters together select exactly the rows that are in the partition of every dimension.
    pub partition_dimensions_to_filters-selects :
        (schema : Schema) (spec : Option (List PartitionField)) (ds : List (Dimension Time))
        (ps : List Expression)
        → check_types schema ds ≡ ok tt
        → partition_dimensions_to_filters clock casts (expression_mapper clock) schema spec ds
          ≡ ok ps
        → selects_all rows row ps ≡ is_in_partition schema ds
    unfolding partition_dimensions_to_filters
    partition_dimensions_to_filters-selects schema none ds ps typed h =
        predicates_of-selects schema none ds ps typed h
    partition_dimensions_to_filters-selects schema (some spec) ds ps typed h =
        let (fields, _, made) = bind_returned _ (map_partition_spec_to_fields spec schema) h in
        predicates_of-selects schema (some fields) ds ps typed made
