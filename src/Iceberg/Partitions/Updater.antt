-- ===== src/Iceberg/Partitions/Updater.antt =====
-- `IcebergTableSpecUpdater` and `update_table_partition_spec`: the changes to a table's spec, their
-- recording on pyiceberg's update of it, and the retries round that.
use community_integrations.Base.{
  ◌*◌, ◌&&◌, not, Bool, String, List, [], ◌∷◌, ◌++◌, Option, none, some, ◌==◌, nat_eq, string_eq,
  if◌then◌else◌, Result, ok, err, ◌>>=◌,
}
use community_integrations.Base.Text.{◌<>◌}
use community_integrations.Base.Lists.{length, is_empty}
use community_integrations.Iceberg.Error.{Error, value_error, spec_changes, is_value_error}
use community_integrations.Iceberg.Retry.{Action, Retrying, execute}
use community_integrations.Iceberg.Window.{
  Transform, identity, Calendar, diff_to_transformation, transform_eq,
}
use community_integrations.Iceberg.Partitions.{
  Schema, PartitionField, Partitions, Dimension, time_window,
}
use community_integrations.Iceberg.Partitions.Mapper.{
  PartitionMapper, new_dimensions, updated_dimensions, deleted_fields,
  partition_field_by_source_column,
}

-- `partition_field_name_for`
unfoldable pub partition_field_name_for : String → String → String
partition_field_name_for column prefix = prefix <> "_" <> column

-- What is recorded on `table.update_spec()`.
pub data SpecUpdate : Type 0 where
  remove_field : String → SpecUpdate
  add_field : String → Transform → String → SpecUpdate

-- A block of recordings ends by itself or by an exception, after some of them.
pub record Recorded : Type 0 where
  pub updates : List SpecUpdate
  pub raised : Option Error

-- pyiceberg's table, as this file uses it. `commit` is the end of the `with` block over
-- `table.update_spec()`, by what was recorded and the exception that ends the block.
pub record Tables (T : Type 0) : Type 0 where
  pub schema : T → Schema
  pub spec : T → List PartitionField
  pub commit : Recorded → Action Error T
  pub refresh : Action Error T

pub record Changes (Time : Type 0) : Type 0 where
  pub new : List (Dimension Time)
  pub updated : List (Dimension Time)
  pub deleted : List PartitionField

abbrev pub then_record : Recorded → (Unit {0} → Recorded) → Recorded
then_record r rest = elim r.raised [
  | some e ↦ r
  | none ↦
      let more = rest tt in record { updates = r.updates ++ more.updates; raised = more.raised }
]

abbrev pub nothing : Recorded
nothing = record { updates = []; raised = none }

-- A `for` loop in the block.
unfoldable pub record_all : {A : Type 0} → (A → Recorded) → List A → Recorded
record_all f [] = nothing
record_all f (x ∷ xs) = then_record (f x) (λ _. record_all f xs)

-- `_spec_delete`
unfoldable pub spec_delete : String → Recorded
spec_delete name = record { updates = remove_field name ∷ []; raised = none }

module _ {Time : Type 0} (cal : Calendar Time) where
  -- `_changes`
  unfoldable pub changes : PartitionMapper Time → Result Error (Changes Time)
  changes m = do
    new ← new_dimensions m
    updated ← updated_dimensions cal m
    deleted ← deleted_fields m
    ok (record { new = new; updated = updated; deleted = deleted })

  abbrev pub is_unchanged : Changes Time → Bool
  is_unchanged c = is_empty c.new && is_empty c.updated && is_empty c.deleted

  -- `has_changes`
  unfoldable pub has_spec_changes : PartitionMapper Time → Result Error Bool
  has_spec_changes m = do c ← changes m; ok (not (is_unchanged c))

  unfoldable pub transform_for : Partitions Time → Result Error Transform
  transform_for (time_window start end) = diff_to_transformation cal start end
  transform_for _ = ok identity

  unfoldable pub spec_new : String → Dimension Time → Recorded
  spec_new prefix d = elim (transform_for d.partitions) [
    | err e ↦ record { updates = []; raised = some e }
    | ok t ↦ record {
      updates =
          add_field d.partition_expr t (partition_field_name_for d.partition_expr prefix) ∷ [];
      raised = none;
    }
  ]

  unfoldable pub spec_update : PartitionMapper Time → String → Dimension Time → Recorded
  spec_update m prefix d =
      then_record
        (elim (partition_field_by_source_column m.schema m.spec d.partition_expr) [
          | none ↦ nothing
          | some f ↦ spec_delete f.name
        ])
        (λ _. spec_new prefix d)

  -- The body of the `with` block, over the changes computed anew.
  unfoldable pub record_changes : PartitionMapper Time → String → Changes Time → Recorded
  record_changes m prefix c = then_record (record_all (spec_new prefix) c.new) (λ _.
      then_record (record_all (spec_update m prefix) c.updated)
        (λ _. record_all (λ (f : PartitionField). spec_delete f.name) c.deleted))

  unfoldable pub record_block : PartitionMapper Time → String → Recorded
  record_block m prefix = elim (changes m) [
    | err e ↦ record { updates = []; raised = some e }
    | ok c ↦ record_changes m prefix c
  ]

module _ {Time T : Type 0} (cal : Calendar Time) (api : Tables T) where
  -- `IcebergTableSpecUpdater.update_table_spec`
  unfoldable pub update_table_spec : String → String → PartitionMapper Time → Action Error T
  update_table_spec mode prefix m t = elim (has_spec_changes cal m) [
    | err e ↦ (some e, t)
    | ok changed ↦
        if mode == "error" && changed
        then (some (value_error spec_changes), t)
        else if not changed
        then (none, t)
        else api.commit (record_block cal m prefix) t
  ]

  -- `PyIcebergPartitionSpecUpdaterWithRetry.operation`
  unfoldable pub update_spec : List (Dimension Time) → String → String → Action Error T
  update_spec dimensions mode prefix t =
      update_table_spec mode prefix
        (record { schema = api.schema t; spec = api.spec t; dimensions = dimensions }) t

  -- Three tries for each dimension.
  unfoldable pub update_table_partition_spec :
      Retrying Error T → List (Dimension Time) → String → String → Action Error T
  update_table_partition_spec R dimensions mode prefix =
      execute (update_spec dimensions mode prefix) api.refresh R
        (if is_empty dimensions then 3 else 3 * length dimensions) is_value_error
