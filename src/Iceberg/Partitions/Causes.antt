-- ===== src/Iceberg/Partitions/Causes.antt =====
-- Why a field is removed: only where its dimension is updated, or has gone.
use community_integrations.Base.{
  ◌≡◌, refl, sym, ap, subst, ◌∙◌, ◌⊎◌, inl, inr, not, true, false, String, some, ◌==◌, contains,
  nat_eq, string_eq, option_eq, arith, ok, Bool-cases,
}
use community_integrations.Base.Lists.{keep}
use community_integrations.Base.Members.{In, In-keep, In-keep_intro, contains_of_In, In-map}
use community_integrations.Iceberg.Window.{Transform, identity, Calendar, diff_to_transformation}
use community_integrations.Iceberg.Partitions.{
  Column, IsSchema, PartitionField, Partitions, Dimension, time_window, keys, other_partitions,
  column_by_id,
}
use community_integrations.Iceberg.Partitions.Mapper.{
  PartitionMapper, is_deleted, partition_field_by_source_column, new_dimensions, updated_dimensions,
}
use community_integrations.Iceberg.Partitions.Updater.{
  remove_field, Changes, changes, record_changes, transform_for,
}
use community_integrations.Iceberg.Partitions.Changes.{
  names, changes_parts, new_In, updated_In, column_of, dimensions_read, updated_of, deleted_of,
}
use community_integrations.Iceberg.Partitions.Dimensions.{partition_field_parts, wanted_of}
use community_integrations.Iceberg.Partitions.Record
use community_integrations.Iceberg.Partitions.Sync.{Fits, removed, In-of_removed}

module _ {Time : Type 0} (cal : Calendar Time) (m : PartitionMapper Time) (law : IsSchema m.schema)
    (c : Changes Time) (computed : changes cal m ≡ ok c) where
  pub new_known : new_dimensions m ≡ ok c.new
  new_known = (changes_parts cal m computed).0

  pub updated_known : updated_dimensions cal m ≡ ok c.updated
  updated_known = (changes_parts cal m computed).1

  pub deleted_known : c.deleted ≡ keep (is_deleted m.schema (names cal m)) m.spec
  deleted_known = deleted_of cal m c.deleted (changes_parts cal m computed).2

  pub column :
      (d : Dimension Time)
      → In d m.dimensions
      → (b : Column) × (m.schema.find_field d.partition_expr ≡ some b)
  column d i =
      let (ds, got) = dimensions_read cal m c.new new_known in
      let (b, found, _) = column_of cal m d ds i got in (b, found)

  -- The transform of a dimension is known, and a field that needs no update has it.
  pub transform_of :
      (d : Dimension Time) (p : Partitions Time)
      → In d m.dimensions
      → d.partitions ≡ p
      → (t : Transform) × (transform_for cal p ≡ ok t)
        × Fits cal p t
        × ((f : PartitionField)
            → partition_field_by_source_column m.schema m.spec d.partition_expr ≡ some f
            → In d c.updated ⊎ Fits cal p f.transform)
  unfolding transform_for
  transform_of d (time_window start end) i e =
      let (u, got, upd) = updated_of cal m d c.updated i updated_known in
      let (t, fits, same) = wanted_of cal m law d start end u i e got in
      (
        t,
        fits,
        fits,
        λ f found. elim (Bool-cases (u == some d.partition_expr)) [
          | inl yes_it ↦ inl (rw upd (In-keep_intro _ d m.dimensions i yes_it))
          | inr no_it ↦
              inr
                (subst (λ t. diff_to_transformation cal start end ≡ ok t) (same f found no_it) fits)
        ],
      )
  transform_of d (keys ks) i e = (identity, refl, tt, λ f found. inr tt)
  transform_of d other_partitions i e = (identity, refl, tt, λ f found. inr tt)

  pub known :
      (d : Dimension Time)
      → In d m.dimensions
      → (t : Transform) × (transform_for cal d.partitions ≡ ok t)
  known d i = let (t, h, _, _) = transform_of d d.partitions i refl in (t, h)

  -- Whether a dimension is updated depends on its column's name alone.
  updated_alike :
      (d e : Dimension Time)
      → In d c.updated
      → In e m.dimensions
      → d.partition_expr ≡ e.partition_expr
      → In e c.updated
  updated_alike d e i j same =
      let (u, got, upd) = updated_of cal m e c.updated j updated_known in
      let test : (u == some d.partition_expr) ≡ true = (In-keep _ d m.dimensions (rw upd at i)).1 in
      rw upd (In-keep_intro _ e m.dimensions j (rw (sym same) test))

  -- Two dimensions over columns with the same id have the same name.
  same_name :
      (n k : String) (a b : Column)
      → m.schema.find_field n ≡ some a
      → m.schema.find_field k ≡ some b
      → a.field_id ≡ b.field_id
      → n ≡ k
  same_name n k a b h h' e =
      let (at, an) = law.found n h in
      let (bt, bn) = law.found k h' in
      let ab : some a ≡ some b = sym at ∙ ap (column_by_id m.schema.fields) e ∙ bt in
      sym an ∙ ground arith ∙ bn

  -- A field that is deleted is over no dimension's column.
  deleted_other :
      (g : PartitionField) (n : String) (col : Column)
      → In g c.deleted
      → m.schema.find_field n ≡ some col
      → g.source_id ≡ col.field_id
      → contains (names cal m) n ≡ false
  deleted_other g n col i h e =
      let (at, an) = law.found n h in
      let at' : column_by_id m.schema.fields g.source_id ≡ some col =
        ap (column_by_id m.schema.fields) e ∙ at in
      let test : is_deleted m.schema (names cal m) g ≡ true =
        (In-keep _ g m.spec (rw deleted_known at i)).1 in
      let test' : not (contains (names cal m) col.name) ≡ true = rw (at', is_deleted) at test in
      sym (ap (contains (names cal m)) an) ∙ ground arith

  pub listed :
      (d : Dimension Time) → In d m.dimensions → contains (names cal m) d.partition_expr ≡ true
  listed d i =
      contains_of_In d.partition_expr (names cal m)
        (In-map (λ (d : Dimension Time). d.partition_expr) d m.dimensions i)

  -- A field for a dimension that is removed belongs to a dimension that is updated.
  pub removed_updated :
      (unique : (f g : PartitionField) → In f m.spec → In g m.spec → f.name ≡ g.name → f ≡ g)
      (prefix : String) (d : Dimension Time) (f : PartitionField)
      → In d m.dimensions
      → partition_field_by_source_column m.schema m.spec d.partition_expr ≡ some f
      → contains (removed (record_changes cal m prefix c).updates) f.name ≡ true
      → In d c.updated
  removed_updated unique prefix d f i pf gone =
      let (col, found) = column d i in
      let (in_spec, over) = partition_field_parts m.schema m.spec d.partition_expr found pf in
      cause col found in_spec over (
        Record.block-Cause cal m prefix c (λ e j. known e (new_In cal m e c.new new_known j))
          (λ e j. known e (updated_In cal m e c.updated updated_known j)) (remove_field f.name)
          (In-of_removed f.name _ gone))
    where
      cause :
          (col : Column)
          → m.schema.find_field d.partition_expr ≡ some col
          → In f m.spec
          → f.source_id ≡ col.field_id
          → Record.Cause cal m prefix c
              (λ e j. known e (new_In cal m e c.new new_known j))
              (λ e j. known e (updated_In cal m e c.updated updated_known j))
              (remove_field f.name)
          → In d c.updated
      cause col found in_spec over (Record.added e t j h u) = cc
      cause col found in_spec over (Record.replaced e g j pg u) =
          let k = updated_In cal m e c.updated updated_known j in
          let (col_e, found_e) = column e k in
          let (g_in, g_over) = partition_field_parts m.schema m.spec e.partition_expr found_e pg in
          let fg : f ≡ g = unique f g in_spec g_in (ground arith) in
          let ids : col_e.field_id ≡ col.field_id =
            sym g_over ∙ sym (ap (λ (h : PartitionField). h.source_id) fg) ∙ over in
          updated_alike e d j i
            (same_name e.partition_expr d.partition_expr col_e col found_e found ids)
      cause col found in_spec over (Record.dropped g j u) =
          let g_in = (In-keep _ g m.spec (rw deleted_known at j)).0 in
          let fg : f ≡ g = unique f g in_spec g_in (ground arith) in
          let over' : g.source_id ≡ col.field_id =
            sym (ap (λ (h : PartitionField). h.source_id) fg) ∙ over in
          let no_name = deleted_other g d.partition_expr col j found over' in
          absurd (ground (arith, listed d i, no_name))
