-- ===== src/Iceberg/Partitions/Sync.antt =====
-- What `update_table_partition_spec` leaves: a spec that fits the dimensions of the asset.
use community_integrations.Base.{
  ◌≡◌, ◌↔◌, ap, ◌⊎◌, inl, inr, true, false, String, List, [], ◌∷◌, map, none, some, contains,
  nat_eq, string_eq, option_eq, arith, ok,
}
use community_integrations.Base.Members.{In}
use community_integrations.Iceberg.Window.{Transform, Calendar, diff_to_transformation}
use community_integrations.Iceberg.Partitions.{
  Column, Schema, IsSchema, PartitionField, Partitions, Dimension, time_window, column_by_id,
}
use community_integrations.Iceberg.Partitions.Updater.{
  SpecUpdate, remove_field, add_field, Recorded, Tables,
}

-- A transform fits a dimension: that of its time window, and any for keys.
abbrev pub Fits : {Time : Type 0} → Calendar Time → Partitions Time → Transform → Type 0
Fits cal (time_window start end) t = diff_to_transformation cal start end ≡ ok t
Fits cal _ t = Unit

-- A spec fits the dimensions: each has a field over its column with its transform, and no field is
-- over another column of the schema.
pub record IsSynced {Time : Type 0} (cal : Calendar Time) (dimensions : List (Dimension Time))
    (schema : Schema) (spec : List PartitionField) : Type 0 where
  pub covered :
      (d : Dimension Time)
      → In d dimensions
      → (c : Column) × (f : PartitionField) × (schema.find_field d.partition_expr ≡ some c)
        × In f spec
        × (f.source_id ≡ c.field_id)
        × Fits cal d.partitions f.transform
  pub clean :
      (f : PartitionField) (c : Column)
      → In f spec
      → column_by_id schema.fields f.source_id ≡ some c
      → In c.name (map (λ d. d.partition_expr) dimensions)

abbrev pub removed : List SpecUpdate → List String
removed [] = []
removed (remove_field n ∷ us) = n ∷ removed us
removed (add_field e t n ∷ us) = removed us

-- A field that an update adds.
abbrev pub Added : Schema → List SpecUpdate → PartitionField → Type 0
Added schema us f =
    (e : String) × (t : Transform) × (n : String) × (c : Column) × In (add_field e t n) us
    × (schema.find_field e ≡ some c)
    × (f ≡ record { source_id = c.field_id; name = n; transform = t })

-- What pyiceberg documents (format version 2): schemas are looked up by name and by id, a spec's
-- names are its fields' own, and a commit leaves the schema, removes the fields that are named and
-- adds those that are recorded.
pub record IsTables {T : Type 0} (api : Tables T) : Type 0 where
  pub lawful : (t : T) → IsSchema (api.schema t)
  pub unique :
      (t : T) (f g : PartitionField)
      → In f (api.spec t)
      → In g (api.spec t)
      → f.name ≡ g.name
      → f ≡ g
  pub kept :
      (r : Recorded) (t : T)
      → (api.commit r t).0 ≡ none
      → api.schema (api.commit r t).1 ≡ api.schema t
  pub committed :
      (r : Recorded) (t : T)
      → r.raised ≡ none
      → (api.commit r t).0 ≡ none
      → (f : PartitionField)
      → In f (api.spec (api.commit r t).1) ↔ (
          (In f (api.spec t) × (contains (removed r.updates) f.name ≡ false))
          ⊎ Added (api.schema t) r.updates f)

pub removed_intro :
    (n : String) (us : List SpecUpdate) → In (remove_field n) us → contains (removed us) n ≡ true
removed_intro n [] i = absurd i
removed_intro n (remove_field k ∷ us) (inl e) = ground arith
removed_intro n (remove_field k ∷ us) (inr i) = ground (arith, removed_intro n us i)
removed_intro n (add_field e t k ∷ us) (inl p) = cc
removed_intro n (add_field e t k ∷ us) (inr i) = removed_intro n us i

pub In-of_removed :
    (n : String) (us : List SpecUpdate) → contains (removed us) n ≡ true → In (remove_field n) us
In-of_removed n [] h = cc
In-of_removed n (remove_field k ∷ us) h = elim (string_eq.dec n k) [
  | yes e ↦ inl (ap remove_field e)
  | no ne ↦ inr (In-of_removed n us (ground arith))
]
In-of_removed n (add_field e t k ∷ us) h = inr (In-of_removed n us h)
