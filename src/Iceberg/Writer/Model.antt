-- ===== src/Iceberg/Writer/Model.antt =====
-- A catalog of one table: what is assumed of pyiceberg's can hold.
use community_integrations.Base.{
  ◌≡◌, refl, arith, not, Bool, true, false, String, List, [], ◌++◌, Option, none, some, ◌&&◌, ◌||◌,
  contains, string_eq, Bool-cases, inl, inr,
}
use community_integrations.Base.Lists.{keep}
use community_integrations.Iceberg.Error.{Error, no_such_table, table_already_exists}
use community_integrations.Iceberg.Window.{Calendar, positive}
use community_integrations.Iceberg.Partitions.Model.{
  schema, distinct, Table, tables, tables-IsTables,
}
use community_integrations.Iceberg.Predicates.Model.{Instant, Row, rows}
use community_integrations.Iceberg.Properties as Props
use community_integrations.Iceberg.Schema.Model as Named
use community_integrations.Iceberg.Writer.{Catalog, RowFilter}
use community_integrations.Iceberg.Writer.Rows.{Contents, IsCatalog, covers}
use community_integrations.Iceberg.Writer.Names.{KeepsNames}

-- The rows are those of which the function says so.
pub record World : Type 0 where
  pub exists : Bool
  pub names : List String
  pub spec : Table
  pub properties : Props.Properties
  pub stored : Row → Bool

pub record Data : Type 0 where
  pub names : List String
  pub rows : Row → Bool

-- An operation on a table that is there.
abbrev on_table : (World → World) → World → Bool → Option Error × World
on_table f t true = (none, f t)
on_table f t false = (some no_such_table, t)

unfoldable pub no_fields : Table
unfolding distinct
no_fields = ([], refl)

abbrev make : List String → Props.Properties → World → Bool → Option Error × World
make names properties t true = (some table_already_exists, t)
make names properties t false = (
  none,
  record {
    exists = true;
    names = names;
    spec = no_fields;
    properties = properties;
    stored = λ row. false;
  },
)

abbrev written : Data → RowFilter → World → World
written d f t = record t { stored = λ row. d.rows row || t.stored row && not (covers rows row f) }

abbrev added : Data → World → World
added d t = record t { stored = λ row. d.rows row || t.stored row }

abbrev pub catalog : Catalog World Data
catalog = record {
  columns = λ d. d.names;
  load_table = λ t. on_table (λ t. t) t t.exists;
  create = λ names properties t. make names properties t t.exists;
  append = λ d properties t. on_table (added d) t t.exists;
  overwrite = λ d f properties t. on_table (written d f) t t.exists;
  upsert = λ d options t. on_table (added d) t t.exists;
  schema_api = record {
    names = λ t. t.names;
    commit = λ us t. (none, record t { names = (Named.columns.commit us t.names).1 });
    refresh = λ t. (none, t);
  };
  spec_api = record {
    schema = λ t. schema;
    spec = λ t. t.spec.0;
    commit = λ r t. ((tables.commit r t.spec).0, record t { spec = (tables.commit r t.spec).1 });
    refresh = λ t. (none, t);
  };
  properties_api = record {
    properties = λ t. t.properties;
    commit = λ removed set t. (
      none,
      record t { properties = set ++ keep (λ p. not (contains removed p.0)) t.properties },
    );
    refresh = λ t. (none, t);
  };
}

abbrev pub contents : Contents World Data Row
contents = record { has = λ t row. t.exists && t.stored row; data_has = λ d row. d.rows row }

abbrev Keeps : World → Option Error × World → Type 0
Keeps t r = (row : Row) → contents.has r.1 row ≡ contents.has t row

on_table-Keeps : (t : World) (b : Bool) → Keeps t (on_table (λ t. t) t b)
on_table-Keeps t true row = refl
on_table-Keeps t false row = refl

pub catalog-IsCatalog : IsCatalog catalog contents rows
catalog-IsCatalog = record {
  spec_law = record {
    lawful = λ t. tables-IsTables.lawful t.spec;
    unique = λ t. tables-IsTables.unique t.spec;
    kept = λ r t done. refl;
    committed = λ r t quiet done. tables-IsTables.committed r t.spec quiet done;
  };
  loaded = λ t. on_table-Keeps t t.exists;
  absent = λ t row h. elim (Bool-cases t.exists) [ inl e ↦ ground arith | inr e ↦ ground arith ];
  created = λ names properties t row h. elim (Bool-cases t.exists) [
    | inl e ↦ ground arith
    | inr e ↦ ground arith
  ];
  not_created = λ names properties t row e h. elim (Bool-cases t.exists) [
    | inl e ↦ ground arith
    | inr e ↦ ground arith
  ];
  columns_kept = λ us t row. refl;
  columns_refreshed = λ t row. refl;
  spec_kept = λ r t row. refl;
  refreshed = λ t. (λ row. refl, refl);
  properties_kept = λ removed set t. (λ row. refl, refl);
  properties_refreshed = λ t. (λ row. refl, refl);
  overwritten = λ d f properties t row h. elim (Bool-cases t.exists) [
    | inl e ↦ ground arith
    | inr e ↦ ground arith
  ];
  not_overwritten = λ d f properties t row e h. elim (Bool-cases t.exists) [
    | inl e ↦ ground arith
    | inr e ↦ ground arith
  ];
  overwrite_schema = λ d f properties t. refl;
}

on_table-names :
    (f : World → World) (t : World) (b : Bool)
    → (f t).names ≡ t.names
    → (on_table f t b).1.names ≡ t.names
on_table-names f t true h = h
on_table-names f t false h = refl

make-names :
    (names : List String) (properties : Props.Properties) (t : World) (b : Bool)
    → (make names properties t b).0 ≡ none
    → (make names properties t b).1.names ≡ names
make-names names properties t true h = cc
make-names names properties t false h = refl

pub catalog-KeepsNames : KeepsNames catalog
catalog-KeepsNames = record {
  schema_law = record {
    committed = λ us t a h. Named.columns-IsTables.committed us t.names a refl;
  };
  created = λ names properties t. make-names names properties t t.exists;
  loaded = λ t. on_table-names (λ t. t) t t.exists refl;
  spec_kept = λ r t. refl;
  refreshed = λ t. refl;
  properties_kept = λ removed set t. refl;
  properties_refreshed = λ t. refl;
  appended = λ d properties t. on_table-names (added d) t t.exists refl;
  overwritten = λ d f properties t. on_table-names (written d f) t t.exists refl;
  upserted = λ d options t. on_table-names (added d) t t.exists refl;
}

-- A day is a day long.
abbrev pub days : Calendar Instant
days = record { in_hours = λ s e. positive 24; in_months = λ s e. positive 0 }
