-- ===== src/Iceberg/Properties.antt =====
-- _utils/properties.py: bringing a table's properties in step with those that the user passes. The
-- table is pyiceberg's, and a parameter.
pub mod Laws
mod Tests
use community_integrations.Base.{
  ℕ, ◌+◌, ◌≡◌, not, ◌&&◌, Bool, true, false, String, List, [], ◌∷◌, Option, none, some, ◌==◌,
  contains, Eq, string_eq, option_eq, nat_eq, if◌then◌else◌,
}
use community_integrations.Base.Dict.{Dict, get, keys}
use community_integrations.Base.Lists.{length, keep, difference, is_empty}
use community_integrations.Iceberg.Error.{Error, is_commit_failed}
use community_integrations.Iceberg.Retry.{Action, Retrying, execute}

abbrev pub Properties : Type 0
Properties = Dict String String

-- `TablePropertiesDiffer`
unfoldable pub updated_properties : Properties → Properties → List String
updated_properties current new =
    keep (λ k. contains (keys current) k && not (get current k == get new k)) (keys new)

unfoldable pub deleted_properties : Properties → Properties → List String
deleted_properties current new = difference (keys current) (keys new)

unfoldable pub new_properties : Properties → Properties → List String
new_properties current new = difference (keys new) (keys current)

unfoldable pub has_changes : Properties → Properties → Bool
has_changes current new = not (
    length (updated_properties current new)
      + length (deleted_properties current new)
      + length (new_properties current new)
    == 0)

-- A pyiceberg table, as this file uses it: `commit removed set` is the transaction
-- `tx.remove_properties(*removed); tx.set_properties(set)`.
pub record Tables (T : Type 0) : Type 0 where
  pub properties : T → Properties
  pub commit : List String → Properties → Action Error T
  pub refresh : Action Error T

-- What pyiceberg documents of the transaction: what is set holds, what is only removed is gone, and
-- the rest is left.
pub record IsTables {T : Type 0} (api : Tables T) : Type 0 where
  pub committed :
      (removed : List String) (set : Properties) (t : T) (k : String)
      → (api.commit removed set t).0 ≡ none
      → get (api.properties (api.commit removed set t).1) k ≡ elim (get set k) [
        | some v ↦ some v
        | none ↦ if contains removed k then none else get (api.properties t) k
      ]

module _ {T : Type 0} (api : Tables T) where
  -- `IcebergTablePropertiesUpdater.update_table_properties`
  unfoldable pub update_properties : Properties → Properties → Action Error T
  update_properties current new t =
      if not (has_changes current new)
      then (none, t)
      else api.commit (deleted_properties current new) new t

  -- `update_table_properties`: three tries, on a failed commit.
  unfoldable pub update_table_properties :
      Retrying Error T → Properties → Properties → Action Error T
  update_table_properties R current new =
      execute (update_properties current new) api.refresh R 3 is_commit_failed
