-- ===== src/Iceberg/Partitions/Dimensions.antt =====
-- Each dimension of an asset, where the changes to its table's spec could be computed: it is new,
-- or it is updated, or the spec has a field for it that needs no change.
use community_integrations.Base.{
  ℕ, ◌≤◌, ◌≡◌, refl, sym, ap, ◌∙◌, ◌⊎◌, inl, inr, true, false, String, List, [], ◌∷◌, Option, some,
  ◌==◌, contains, nat_eq, string_eq, option_eq, arith, ok, bind_returned, Bool-cases, Option-cases,
}
use community_integrations.Base.Dict.{Dict, put, values}
use community_integrations.Base.Lists.{length, keep, contains-difference}
use community_integrations.Base.Members.{
  In, In-keep_intro, In-find, find_of_In, contains_of_In, In-map,
}
use community_integrations.Iceberg.Window.{
  Transform, Calendar, diff_to_transformation, transform_eq,
}
use community_integrations.Iceberg.Partitions.{
  Column, Schema, IsSchema, PartitionField, Dimension, time_window, column_by_id,
}
use community_integrations.Iceberg.Partitions.Mapper.{
  PartitionMapper, is_time_window, get_dimensions, new_dimensions, time_partitions, updated_field,
  updated_time_field, field_by_source, partition_field_by_source_column, spec_to_fields_from,
  map_partition_spec_to_fields,
}
use community_integrations.Iceberg.Partitions.Changes.{names, dimensions_of, new_of, new_names_of}

contains-values-put :
    (d : Dict ℕ String) (k : ℕ) (v n : String)
    → contains (values (put d k v)) n ≡ true
    → (contains (values d) n ≡ true) ⊎ (n ≡ v)
unfolding put values
contains-values-put [] k v n h = ground arith
contains-values-put ((j, w) ∷ d) k v n h = ground (arith, contains-values-put d k v n)

-- A name among the spec's columns is that of some field's column.
spec_to_fields_values :
    (spec : List PartitionField) (schema : Schema) (d fields : Dict ℕ String) (n : String)
    → spec_to_fields_from spec schema d ≡ ok fields
    → contains (values fields) n ≡ true
    → (contains (values d) n ≡ true)
      ⊎ ((f : PartitionField) × (c : Column) × In f spec
          × (column_by_id schema.fields f.source_id ≡ some c)
          × (c.name ≡ n))
unfolding spec_to_fields_from
spec_to_fields_values [] schema d fields n h k = inl (ground arith)
spec_to_fields_values (f ∷ spec) schema d fields n h k =
    elim (Option-cases (column_by_id schema.fields f.source_id)) [
      | inl lost ↦ absurd (ground arith)
      | inr (c, found) ↦
          elim (spec_to_fields_values spec schema (put d f.source_id c.name) fields n (ground arith)
            k) [
              | inr (g, b, i, e, same) ↦ inr (g, b, inr i, e, same)
              | inl put_in ↦ elim (contains-values-put d f.source_id c.name n put_in) [
                | inl old ↦ inl old
                | inr here ↦ inr (f, c, inl refl, found, sym here)
              ]
            ]
    ]

partition_field_of :
    (schema : Schema) (spec : List PartitionField) (n : String) {c : Column} {g : PartitionField}
    → schema.find_field n ≡ some c
    → field_by_source spec c.field_id ≡ some g
    → partition_field_by_source_column schema spec n ≡ some g
unfolding partition_field_by_source_column
partition_field_of schema spec n h k = ground arith

-- The field that is found for a column stands in the spec, over the column.
pub partition_field_parts :
    (schema : Schema) (spec : List PartitionField) (n : String) {c : Column} {g : PartitionField}
    → schema.find_field n ≡ some c
    → partition_field_by_source_column schema spec n ≡ some g
    → In g spec × (g.source_id ≡ c.field_id)
unfolding partition_field_by_source_column field_by_source
partition_field_parts schema spec n {c} {g} h k =
    let (i, e) =
      In-find (λ (g : PartitionField). g.source_id == c.field_id) spec {a = g} (ground arith) in
    (i, ground arith)

-- Some field is found for a column that a field is over.
field_of_In :
    (schema : Schema) (spec : List PartitionField) (f : PartitionField) (c : Column) (n : String)
    → schema.find_field n ≡ some c
    → In f spec
    → column_by_id schema.fields f.source_id ≡ some c
    → (g : PartitionField) × (partition_field_by_source_column schema spec n ≡ some g)
unfolding field_by_source
field_of_In schema spec f c n h i found =
    let id : (c.field_id == f.source_id) ≡ true = (In-find _ schema.fields found).1 in
    let (g, e) =
      find_of_In (λ (g : PartitionField). g.source_id == c.field_id) f spec i (ground arith) in
    (g, partition_field_of schema spec n h e)

module _ {Time : Type 0} (cal : Calendar Time) (m : PartitionMapper Time)
    (law : IsSchema m.schema) where
  -- A dimension that is not new has a field in the spec.
  pub new_or_field :
      (d : Dimension Time) (new : List (Dimension Time))
      → In d m.dimensions
      → new_dimensions m ≡ ok new
      → In d new
        ⊎ ((f : PartitionField) × (partition_field_by_source_column m.schema m.spec d.partition_expr
              ≡ some f))
  unfolding map_partition_spec_to_fields values
  new_or_field d new i h =
      let (ns, got, e) = new_of cal m d new i h in
      let (fields, read, e') = new_names_of cal m ns got in
      let listed : contains (names cal m) d.partition_expr ≡ true =
        contains_of_In d.partition_expr (names cal m)
          (In-map (λ (d : Dimension Time). d.partition_expr) d m.dimensions i) in
      elim (Bool-cases (contains (values fields) d.partition_expr)) [
        | inr fresh ↦ inl (
            rw e (In-keep_intro _ d m.dimensions i (rw e' (rw contains-difference (ground arith)))))
        | inl known ↦
            elim (spec_to_fields_values m.spec m.schema [] fields d.partition_expr read known) [
              | inl bad ↦ absurd (ground arith)
              | inr (f, c, j, found, same) ↦
                  let col : m.schema.find_field d.partition_expr ≡ some c =
                    rw (sym same) (law.finds f.source_id found) in
                  inr (field_of_In m.schema m.spec f c d.partition_expr col j found)
            ]
      ]

  time_partitions_of :
      (found : List (Dimension Time))
      → time_partitions m ≡ ok found
      → (found ≡ keep is_time_window m.dimensions) × (length found ≤ 1)
  unfolding time_partitions
  time_partitions_of found h =
      let (ds, got, h₁) = bind_returned _ (get_dimensions m false) h in
      let e : ds ≡ m.dimensions = (dimensions_of cal m false ds got).0 in
      let k : keep is_time_window ds ≡ found = ground arith in
      let short : length (keep is_time_window ds) ≤ 1 = ground arith in
      (sym k ∙ ap (keep is_time_window) e, rw (sym k) short)

  only : (d : Dimension Time) (xs : List (Dimension Time)) → In d xs → length xs ≤ 1 → xs ≡ d ∷ []
  only d [] i h = absurd i
  only d (x ∷ []) (inl e) h = rw e
  only d (x ∷ []) (inr i) h = absurd i
  only d (x ∷ y ∷ xs) i h = absurd (omega arith)

  -- What the one time partition of the asset says.
  time_field_of :
      (d : Dimension Time) (start end : Time) (u : Option String)
      → In d m.dimensions
      → d.partitions ≡ time_window start end
      → updated_time_field cal m ≡ ok u
      → updated_field cal m d.partition_expr (time_window start end) ≡ ok u
  unfolding updated_time_field
  time_field_of d start end u i w h =
      let (found, got, h₁) = bind_returned _ (time_partitions m) h in
      let (e, short) = time_partitions_of found got in
      let one : found ≡ d ∷ [] =
        only d found (rw e (In-keep_intro is_time_window d m.dimensions i (rw w))) short in
      rw (sym w) (rw one at h₁)

  -- The transform of a time window is one that is supported.
  pub wanted_of :
      (d : Dimension Time) (start end : Time) (u : Option String)
      → In d m.dimensions
      → d.partitions ≡ time_window start end
      → updated_time_field cal m ≡ ok u
      → (t : Transform) × (diff_to_transformation cal start end ≡ ok t)
        × ((f : PartitionField)
            → partition_field_by_source_column m.schema m.spec d.partition_expr ≡ some f
            → (u == some d.partition_expr) ≡ false
            → t ≡ f.transform)
  unfolding updated_field
  wanted_of d start end u i w h =
      let (t, got, h₁) =
        bind_returned _ (diff_to_transformation cal start end)
          (time_field_of d start end u i w h) in
      (t, got, λ f e differ. ground arith)
