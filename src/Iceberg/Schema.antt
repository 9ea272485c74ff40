-- ===== src/Iceberg/Schema.antt =====
-- _utils/schema.py: bringing a table's columns in step with the data that is written. The code
-- reads a schema by its column names only. A table is pyiceberg's, and a parameter.
pub mod Laws
pub mod Model
mod Tests
use community_integrations.Base.{
  String, ◌≡◌, ◌&&◌, ◌||◌, not, Bool, true, false, Option, none, some, List, [], ◌∷◌, ◌++◌, map,
  contains, ◌==◌, string_eq, list_eq, if◌then◌else◌,
}
use community_integrations.Base.Lists.{difference, is_empty}
use community_integrations.Base.Sorting.{sort, str_le}
use community_integrations.Iceberg.Error.{Error, value_error, schema_changes, is_value_error}
use community_integrations.Iceberg.Retry.{Action, Retrying, execute}

-- What is recorded on `table.update_schema()`.
pub data SchemaUpdate : Type 0 where
  delete_column : String → SchemaUpdate
  union_by_name : List String → SchemaUpdate

abbrev pub deletes : String → List SchemaUpdate → Bool
deletes a [] = false
deletes a (delete_column c ∷ us) = a == c || deletes a us
deletes a (union_by_name cs ∷ us) = deletes a us

abbrev pub unites : String → List SchemaUpdate → Bool
unites a [] = false
unites a (delete_column c ∷ us) = unites a us
unites a (union_by_name cs ∷ us) = contains cs a || unites a us

-- A pyiceberg table, as this file uses it: `table.schema().as_arrow().names`, the `with` block over
-- `table.update_schema()`, which commits what it recorded, and `table.refresh()`.
pub record Tables (T : Type 0) : Type 0 where
  pub names : T → List String
  pub commit : List SchemaUpdate → Action Error T
  pub refresh : Action Error T

-- What pyiceberg documents of a commit: the table has the columns that were there and were not
-- deleted, and those of the schemas that were united with it.
pub record IsTables {T : Type 0} (api : Tables T) : Type 0 where
  pub committed :
      (us : List SchemaUpdate) (t : T) (a : String)
      → (api.commit us t).0 ≡ none
      → contains (api.names (api.commit us t).1) a
        ≡ (unites a us || contains (api.names t) a && not (deletes a us))

-- `SchemaDiffer`
unfoldable pub has_changes : List String → List String → Bool
has_changes current new = not (sort str_le current == sort str_le new)

unfoldable pub deleted_columns : List String → List String → List String
deleted_columns current new = difference current new

unfoldable pub new_columns : List String → List String → List String
new_columns current new = difference new current

-- What `IcebergTableSchemaUpdater.update_table_schema` records in its `with` block.
unfoldable pub schema_updates : List String → List String → List SchemaUpdate
unfolding deleted_columns new_columns
schema_updates current new =
    map delete_column (deleted_columns current new)
    ++ (if is_empty (new_columns current new) then [] else union_by_name new ∷ [])

module _ {T : Type 0} (api : Tables T) where
  -- `IcebergTableSchemaUpdater.update_table_schema`
  unfoldable pub update_schema : String → List String → Action Error T
  update_schema mode new t =
      let current = api.names t in
      if mode == "error" && has_changes current new
      then (some (value_error schema_changes), t)
      else if not (has_changes current new)
      then (none, t)
      else api.commit (schema_updates current new) t

  -- `update_table_schema`: the operation of `IcebergSchemaUpdaterWithRetry`, tried up to six times.
  unfoldable pub update_table_schema : Retrying Error T → String → List String → Action Error T
  update_table_schema R mode new = execute (update_schema mode new) api.refresh R 6 is_value_error
