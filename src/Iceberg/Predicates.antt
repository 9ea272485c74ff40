-- ===== src/Iceberg/Predicates.antt =====
-- _utils/partitions.py, `DagsterPartitionToPredicateMapper` and its subclasses: the filter that
-- selects the rows of an asset's partition. Time windows are of datetimes, as Dagster makes them.
pub mod Select
pub mod Made
pub mod Sql
pub mod Model
mod Tests
use community_integrations.Base.{
  ℕ, not, Bool, true, false, String, List, [], ◌∷◌, map, Option, none, some, contains, nat_eq,
  if◌then◌else◌, Result, ok, err, ◌>>=◌, ◌&&◌,
}
use community_integrations.Base.Dict.{Dict, keys}
use community_integrations.Base.Lists.{ltb, length}
use community_integrations.Base.Text.{◌<>◌, join}
use community_integrations.Iceberg.Error.{
  Error, value_error, unknown_column, not_partitioned_by, unsupported_type, index_error,
}
use community_integrations.Iceberg.Partitions.{
  ColumnType, date, other_type, timestamp, string, Column, Schema, PartitionField, Partitions,
  Dimension, is_time_type, is_text_type,
}
use community_integrations.Iceberg.Partitions.Mapper.{map_partition_spec_to_fields}

-- The standard library's datetimes: `t.replace(tzinfo=None)`, `t.date()` and `isoformat()`.
pub data Bound (Time Day : Type 0) : Type 0 where
  at_time : Time → Bound Time Day
  on_day : Day → Bound Time Day

pub record Clock (Time Day : Type 0) : Type 0 where
  pub naive : Time → Time
  pub day : Time → Day
  pub isoformat : Bound Time Day → String

-- `start_dt, end_dt = partitions` and iteration over `partitions`, on whatever the slice holds, for
-- the casts check nothing.
pub record Casts (Time : Type 0) : Type 0 where
  pub unpacked : Partitions Time → Result Error (Time × Time)
  pub iterated : Partitions Time → Result Error (List String)

-- The two abstract methods.
pub record PredicateMapper (K Time Day : Type 0) : Type 0 where
  pub partition_filters : String → List String → Result Error K
  pub time_window_filters : String → Bound Time Day → Bound Time Day → K

-- Whether the fields of the spec leave a column out. They are `None` for a table that is new.
abbrev pub is_foreign : Option (Dict ℕ String) → Column → Bool
is_foreign none c = false
is_foreign (some fields) c = not (contains (keys fields) c.field_id)

module _ {Time Day : Type 0} (clock : Clock Time Day) where
  -- The end of a window, by the column's type.
  unfoldable pub bound_for : ColumnType → Time → Bound Time Day
  bound_for date t = on_day (clock.day (clock.naive t))
  bound_for _ t = at_time (clock.naive t)

module _ {K Time Day : Type 0} (clock : Clock Time Day) (casts : Casts Time)
    (mapper : PredicateMapper K Time Day) where
  -- `_partition_filter`
  unfoldable pub partition_filter : Dimension Time → Result Error K
  partition_filter d = do
    filters ← casts.iterated d.partitions
    mapper.partition_filters d.partition_expr filters

  -- `_time_window_partition_filter`
  unfoldable pub time_window_partition_filter : Dimension Time → ColumnType → Result Error K
  unfolding bound_for
  time_window_partition_filter d type = do
    (start, end) ← casts.unpacked d.partitions
    ok (
        mapper.time_window_filters d.partition_expr (bound_for clock type start)
          (bound_for clock type end))

  -- The predicate of one dimension, once its column is known to be one of the spec's.
  unfoldable pub predicate_for : Dimension Time → Column → Result Error K
  predicate_for d c =
      if is_time_type c.field_type
      then time_window_partition_filter d c.field_type
      else if is_text_type c.field_type
      then partition_filter d
      else err (value_error (unsupported_type c.name))

  -- A round of the loop.
  abbrev pub predicate_on : Option (Dict ℕ String) → Dimension Time → Option Column → Result Error K
  predicate_on fields d none = err (value_error (unknown_column d.partition_expr))
  predicate_on fields d (some c) =
      if is_foreign fields c
      then err (value_error (not_partitioned_by c.name))
      else predicate_for d c

  unfoldable pub predicates_of :
      Schema → Option (Dict ℕ String) → List (Dimension Time) → Result Error (List K)
  predicates_of schema fields [] = ok []
  predicates_of schema fields (d ∷ ds) = do
    p ← predicate_on fields d (schema.find_field d.partition_expr)
    ps ← predicates_of schema fields ds
    ok (p ∷ ps)

  -- `partition_dimensions_to_filters`
  unfoldable pub partition_dimensions_to_filters :
      Schema → Option (List PartitionField) → List (Dimension Time) → Result Error (List K)
  partition_dimensions_to_filters schema none ds = predicates_of schema none ds
  partition_dimensions_to_filters schema (some spec) ds = do
    fields ← map_partition_spec_to_fields spec schema
    predicates_of schema (some fields) ds

-- pyiceberg's expressions: a column beside a literal, `E.And` of two of these and `E.Or` of several.
pub data Comparison : Type 0 where
  equal_to at_least less_than : String → String → Comparison

pub data Expression : Type 0 where
  single : Comparison → Expression
  both : Comparison → Comparison → Expression
  any_of : List Comparison → Expression

-- `predicates[0]` where there is not more than one.
abbrev pub first_or_all : {A K : Type 0} → (A → K) → (List A → K) → List A → Result Error K
first_or_all first all [] = err index_error
first_or_all first all (p ∷ []) = ok (first p)
first_or_all first all (p ∷ q ∷ ps) = ok (all (p ∷ q ∷ ps))

-- `DagsterPartitionToSqlPredicateMapper`
unfoldable pub sql_filters : String → List String → Result Error String
sql_filters expr filters =
    first_or_all (λ p. p) (λ ps. "(" <> join " OR " ps <> ")")
      (map (λ p. expr <> " = '" <> p <> "'") filters)

module _ {Time Day : Type 0} (clock : Clock Time Day) where
  -- `DagsterPartitionToIcebergExpressionMapper`
  unfoldable pub expression_mapper : PredicateMapper Expression Time Day
  expression_mapper = record {
    partition_filters = λ expr filters. first_or_all single any_of (map (equal_to expr) filters);
    time_window_filters = λ expr start end.
        both (at_least expr (clock.isoformat start)) (less_than expr (clock.isoformat end));
  }

  -- `DagsterPartitionToPolarsSqlPredicateMapper`
  unfoldable pub polars_mapper : PredicateMapper String Time Day
  unfolding sql_filters
  polars_mapper = record {
    partition_filters = sql_filters;
    time_window_filters = λ expr start end.
        expr
        <> " >= '"
        <> clock.isoformat start
        <> "' AND "
        <> expr
        <> " < '"
        <> clock.isoformat end
        <> "'";
  }

  abbrev pub parse_fmt : Bound Time Day → String
  parse_fmt (at_time t) = "%+"
  parse_fmt (on_day d) = "%F"

  -- `DagsterPartitionToDaftSqlPredicateMapper`
  unfoldable pub daft_mapper : PredicateMapper String Time Day
  unfolding sql_filters
  daft_mapper = record {
    partition_filters = sql_filters;
    time_window_filters = λ expr start end.
        expr
        <> " >= to_date('"
        <> clock.isoformat start
        <> "', '"
        <> parse_fmt start
        <> "') AND "
        <> expr
        <> " < to_date('"
        <> clock.isoformat end
        <> "', '"
        <> parse_fmt start
        <> "')";
  }
