-- ===== src/Iceberg/Writer/Rows.antt =====
-- `table_writer`: the rows of a table, and what the calls of pyiceberg do to them.
use community_integrations.Base.{
  ◌≡◌, ◌∙◌, arith, not, Bool, true, false, String, List, [], ◌∷◌, Option, none, some, ok, ◌&&◌,
  ◌||◌, bind_returned,
}
use community_integrations.Iceberg.Error.{Error, no_such_table}
use community_integrations.Iceberg.Partitions.{Dimension, Schema}
use community_integrations.Iceberg.Partitions.Mapper.{check_types}
use community_integrations.Iceberg.Partitions.Updater as Spec
use community_integrations.Iceberg.Partitions.Sync as Sync
use community_integrations.Iceberg.Predicates.{
  Bound, Clock, Casts, Expression, expression_mapper, partition_dimensions_to_filters,
}
use community_integrations.Iceberg.Predicates.Select.{
  IsCasts, Rows, selects, selects_all, is_in_partition, partition_dimensions_to_filters-selects,
}
use community_integrations.Iceberg.Properties as Props
use community_integrations.Iceberg.Schema as Columns
use community_integrations.Iceberg.Writer.{
  Catalog, RowFilter, always_true, one_of, all_of, filter_of, get_expression_row_filter, row_filter,
  or_no_dimensions,
}

-- The rows of the catalog's table, none where there is no table, and the rows of the data.
pub record Contents (T D Row : Type 0) : Type 0 where
  pub has : T → Row → Bool
  pub data_has : D → Row → Bool

-- A table has the rows that there were.
abbrev pub Holds : {T D Row : Type 0} → Contents T D Row → (Row → Bool) → T → Type 0
Holds contents had t = (row : _) → contents.has t row ≡ had row

-- And the columns of the dimensions have the types that suit them.
abbrev pub IsReady :
    {T D Row Time : Type 0}
    → Catalog T D
    → Contents T D Row
    → (Row → Bool)
    → Option (List (Dimension Time))
    → T
    → Type 0
IsReady api contents had ds t =
    Holds contents had t × (check_types (api.spec_api.schema t) (or_no_dimensions ds) ≡ ok tt)

module _ {Row Moment : Type 0} (rows : Rows Row Moment) (row : Row) where
  -- What pyiceberg documents of a filter.
  abbrev pub covers : RowFilter → Bool
  covers always_true = true
  covers (one_of p) = selects rows row p
  covers (all_of ps) = selects_all rows row ps

  pub filter_of-covers :
      (ps : List Expression) (f : RowFilter)
      → filter_of ps ≡ ok f
      → covers f ≡ selects_all rows row ps
  unfolding selects_all
  filter_of-covers [] f h = cc
  filter_of-covers (p ∷ []) f h = ground arith
  filter_of-covers (p ∷ q ∷ ps) f h = ground arith

module _ {Row Time Day : Type 0} (clock : Clock Time Day) (rows : Rows Row (Bound Time Day))
    (row : Row) where
  -- Whether a row is in a slice; every row is in one without dimensions.
  abbrev pub is_in_slice : Schema → Option (List (Dimension Time)) → Bool
  is_in_slice schema none = true
  is_in_slice schema (some ds) = is_in_partition clock rows row schema ds

  -- The filter of an overwrite takes the rows of the slice.
  pub row_filter-covers :
      {T D : Type 0} (api : Catalog T D)
      → {casts : Casts Time} → IsCasts casts
      → ((b : Bound Time Day) → rows.read (clock.isoformat b) ≡ b)
      → (ds : Option (List (Dimension Time))) (t : T) (f : RowFilter)
      → check_types (api.spec_api.schema t) (or_no_dimensions ds) ≡ ok tt
      → row_filter api clock casts ds t ≡ ok f
      → covers rows row f ≡ is_in_slice (api.spec_api.schema t) ds
  unfolding row_filter get_expression_row_filter
  row_filter-covers api {casts} law reads none t f typed h = ground arith
  row_filter-covers api {casts} law reads (some ds) t f typed h =
      let (ps, made, chosen) =
        bind_returned _
          (partition_dimensions_to_filters clock casts (expression_mapper clock)
            (api.spec_api.schema t) (some (api.spec_api.spec t)) ds)
          h in
      filter_of-covers rows row ps f chosen
      ∙ partition_dimensions_to_filters-selects clock rows row law reads (api.spec_api.schema t)
          (some (api.spec_api.spec t)) ds ps typed made

-- What pyiceberg documents of its calls, where nobody else writes to the table. A row is its values
-- in the columns of the data, which no update of the columns touches.
pub record IsCatalog {T D Row Moment : Type 0} (api : Catalog T D) (contents : Contents T D Row)
    (rows : Rows Row Moment) : Type 0 where
  pub spec_law : Sync.IsTables api.spec_api
  pub loaded : (t : T) (row : Row) → contents.has (api.load_table t).1 row ≡ contents.has t row
  pub absent :
      (t : T) (row : Row) → (api.load_table t).0 ≡ some no_such_table → contents.has t row ≡ false
  pub created :
      (names : List String) (properties : Props.Properties) (t : T) (row : Row)
      → (api.create names properties t).0 ≡ none
      → contents.has (api.create names properties t).1 row ≡ false
  pub not_created :
      (names : List String) (properties : Props.Properties) (t : T) (row : Row) (e : Error)
      → (api.create names properties t).0 ≡ some e
      → contents.has (api.create names properties t).1 row ≡ contents.has t row
  pub columns_kept :
      (us : List Columns.SchemaUpdate) (t : T) (row : Row)
      → contents.has (api.schema_api.commit us t).1 row ≡ contents.has t row
  pub columns_refreshed :
      (t : T) (row : Row) → contents.has (api.schema_api.refresh t).1 row ≡ contents.has t row
  pub spec_kept :
      (r : Spec.Recorded) (t : T) (row : Row)
      → contents.has (api.spec_api.commit r t).1 row ≡ contents.has t row
  pub refreshed :
      (t : T)
      → ((row : Row) → contents.has (api.spec_api.refresh t).1 row ≡ contents.has t row)
        × (api.spec_api.schema (api.spec_api.refresh t).1 ≡ api.spec_api.schema t)
  pub properties_kept :
      (removed : List String) (set : Props.Properties) (t : T)
      → ((row : Row)
          → contents.has (api.properties_api.commit removed set t).1 row ≡ contents.has t row)
        × (api.spec_api.schema (api.properties_api.commit removed set t).1 ≡ api.spec_api.schema t)
  pub properties_refreshed :
      (t : T)
      → ((row : Row) → contents.has (api.properties_api.refresh t).1 row ≡ contents.has t row)
        × (api.spec_api.schema (api.properties_api.refresh t).1 ≡ api.spec_api.schema t)
  pub overwritten :
      (d : D) (f : RowFilter) (properties : Props.Properties) (t : T) (row : Row)
      → (api.overwrite d f properties t).0 ≡ none
      → contents.has (api.overwrite d f properties t).1 row
        ≡ (contents.data_has d row || contents.has t row && not (covers rows row f))
  pub not_overwritten :
      (d : D) (f : RowFilter) (properties : Props.Properties) (t : T) (row : Row) (e : Error)
      → (api.overwrite d f properties t).0 ≡ some e
      → contents.has (api.overwrite d f properties t).1 row ≡ contents.has t row
  pub overwrite_schema :
      (d : D) (f : RowFilter) (properties : Props.Properties) (t : T)
      → api.spec_api.schema (api.overwrite d f properties t).1 ≡ api.spec_api.schema t
