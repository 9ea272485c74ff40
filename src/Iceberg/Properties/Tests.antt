-- ===== src/Iceberg/Properties/Tests.antt =====
-- Runs over a table that is its properties.
use community_integrations.Base.{
  ◌≡◌, ◌↔◌, inr, refl, true, false, String, List, [], ◌∷◌, ◌++◌, none, contains, string_eq,
  option_eq, nat_eq, if◌then◌else◌, arith,
}
use community_integrations.Base.Dict.{get, keys, get-append}
use community_integrations.Base.Lists.{keep, difference, dedup}
use community_integrations.Iceberg.Retry.{execute}
use community_integrations.Iceberg.Retry.Model.{counted, counted-IsRetrying}
use community_integrations.Iceberg.Properties.{
  Properties, updated_properties, deleted_properties, new_properties, has_changes, Tables, IsTables,
  update_properties, update_table_properties,
}
use community_integrations.Iceberg.Properties.Laws.{
  has_property_changes_iff, get-update_table_properties,
}

without : List String → Properties → Properties
without ks [] = []
without ks ((k, v) ∷ d) = let rest = without ks d in if contains ks k then rest else (k, v) ∷ rest

get-without :
    (ks : List String) (d : Properties) (k : String)
    → get (without ks d) k ≡ (if contains ks k then none else get d k)
unfolding without get
get-without ks [] k = ground arith
get-without ks ((j, v) ∷ d) k = ground (arith, get-without ks d k)

abbrev tables : Tables Properties
tables = record {
  properties = λ t. t;
  commit = λ removed set t. (none, set ++ without removed t);
  refresh = λ t. (none, t);
}

tables-IsTables : IsTables tables
tables-IsTables = record {
  committed = λ removed set t k _.
      ground (arith, get-append set (without removed t) k, get-without removed t k);
}

abbrev old : Properties
old = ("owner", "a") ∷ ("gone", "1") ∷ []

abbrev new : Properties
new = ("owner", "b") ∷ ("fresh", "2") ∷ []

changed : has_changes old new ≡ true
unfolding has_changes updated_properties deleted_properties new_properties keys get keep difference
    dedup string_eq option_eq nat_eq
changed = refl

ended : (update_table_properties tables counted old new old).0 ≡ none
unfolding update_table_properties update_properties execute counted has_changes updated_properties
    deleted_properties new_properties keys get keep difference dedup string_eq option_eq nat_eq
ended = refl

gone_listed : contains (keys old) "gone" ≡ true
unfolding keys string_eq
gone_listed = refl

has_property_changes_iff_example :
    (has_changes old new ≡ false) ↔ ((k : String) → get old k ≡ get new k)
has_property_changes_iff_example = has_property_changes_iff old new

get-update_table_properties_example :
    get (update_table_properties tables counted old new old).1 "gone" ≡ get new "gone"
get-update_table_properties_example =
    get-update_table_properties tables-IsTables counted-IsRetrying old new old changed ended "gone"
      (inr gone_listed)
