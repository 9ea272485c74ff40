-- ===== src/Iceberg/Schema/Model.antt =====
-- A table that is its list of columns: what is assumed of pyiceberg's can hold.
use community_integrations.Base.{
  String, ◌≡◌, not, none, List, [], ◌∷◌, ◌++◌, refl, contains, string_eq, list_eq, arith,
}
use community_integrations.Base.Lists.{keep, contains-append, contains-keep}
use community_integrations.Iceberg.Schema.{
  SchemaUpdate, delete_column, union_by_name, deletes, unites, Tables, IsTables,
}

abbrev pub united : List SchemaUpdate → List String
united [] = []
united (delete_column c ∷ us) = united us
united (union_by_name cs ∷ us) = cs ++ united us

abbrev pub columns : Tables (List String)
columns = record {
  names = λ t. t;
  commit = λ us t. (none, united us ++ keep (λ c. not (deletes c us)) t);
  refresh = λ t. (none, t);
}

contains-united : (us : List SchemaUpdate) (a : String) → contains (united us) a ≡ unites a us
contains-united [] a = refl
contains-united (delete_column c ∷ us) a = contains-united us a
contains-united (union_by_name cs ∷ us) a =
    ground (arith, contains-append cs (united us) a, contains-united us a)

pub columns-IsTables : IsTables columns
columns-IsTables = record {
  committed = λ us t a _. ground (
    arith,
    contains-append (united us) (keep (λ c. not (deletes c us)) t) a,
    contains-united us a,
    contains-keep (λ c. not (deletes c us)) t a,
  );
}
