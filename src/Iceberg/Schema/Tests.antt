-- ===== src/Iceberg/Schema/Tests.antt =====
-- Runs over a table that is its list of columns.
use community_integrations.Base.{
  String, ◌≡◌, ◌↔◌, none, some, List, [], ◌∷◌, refl, contains, string_eq, list_eq, ap,
}
use community_integrations.Base.Lists.{keep, difference, dedup, count}
use community_integrations.Base.Sorting.{sort, str_le}
use community_integrations.Iceberg.Error.{value_error, schema_changes}
use community_integrations.Iceberg.Retry.{execute}
use community_integrations.Iceberg.Retry.Model.{counted, counted-IsRetrying}
use community_integrations.Iceberg.Schema.{
  has_changes, schema_updates, deleted_columns, new_columns, update_schema, update_table_schema,
}
use community_integrations.Iceberg.Schema.Laws.{
  update_table_schema_names, update_table_schema_error, update_table_schema_error_iff,
}
use community_integrations.Iceberg.Schema.Model.{columns, columns-IsTables}

abbrev old_names : List String
old_names = "id" ∷ "gone" ∷ []

abbrev new_names : List String
new_names = "id" ∷ "fresh" ∷ []

synced :
    update_table_schema columns counted "update" new_names old_names
    ≡ (none, "id" ∷ "fresh" ∷ "id" ∷ [])
unfolding update_table_schema update_schema execute counted has_changes schema_updates
    deleted_columns new_columns sort str_le keep dedup difference string_eq list_eq
synced = refl

done : (update_table_schema columns counted "update" new_names old_names).0 ≡ none
done = ap (λ r. r.0) synced

update_table_schema_names_example :
    contains (update_table_schema columns counted "update" new_names old_names).1 "fresh"
    ≡ contains new_names "fresh"
update_table_schema_names_example =
    update_table_schema_names columns-IsTables counted-IsRetrying "update" new_names old_names done
      "fresh"

update_table_schema_error_example :
    (update_table_schema columns counted "error" new_names old_names).1 ≡ old_names
update_table_schema_error_example =
    update_table_schema_error columns-IsTables counted-IsRetrying (λ t. t ≡ old_names) (λ t h. h)
      new_names old_names refl

update_table_schema_error_iff_example :
    let raised = (update_table_schema columns counted "error" new_names old_names).0 in
    let IsSame = (a : String) → count a old_names ≡ count a new_names in
    ((raised ≡ none) ↔ IsSame) × ((raised ≡ some (value_error schema_changes)) ↔ (¬ IsSame))
update_table_schema_error_iff_example =
    update_table_schema_error_iff columns-IsTables counted-IsRetrying (λ t. refl) (λ t. refl)
      new_names old_names
