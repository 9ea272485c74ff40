-- ===== src/Iceberg/Partitions/Commit.antt =====
-- After a run of `update_table_partition_spec` the spec fits the dimensions.
use community_integrations.Base.{
  ◌≡◌, refl, sym, ap, subst, ◌∙◌, inl, inr, true, String, List, [], ◌∷◌, map, none, some, contains,
  nat_eq, string_eq, option_eq, arith, ok, Bool-cases,
}
use community_integrations.Base.Lists.{is_empty}
use community_integrations.Base.Members.{In, In-keep_intro, In-of_contains, In-map}
use community_integrations.Iceberg.Window.{Transform, Calendar}
use community_integrations.Iceberg.Partitions.{Column, PartitionField, Dimension, column_by_id}
use community_integrations.Iceberg.Partitions.Mapper.{PartitionMapper, is_deleted}
use community_integrations.Iceberg.Partitions.Updater.{
  add_field, Recorded, Tables, Changes, changes, is_unchanged, record_changes, transform_for,
  partition_field_name_for,
}
use community_integrations.Iceberg.Partitions.Changes.{names, new_In, updated_In}
use community_integrations.Iceberg.Partitions.Dimensions.{partition_field_parts, new_or_field}
use community_integrations.Iceberg.Partitions.Record
use community_integrations.Iceberg.Partitions.Sync.{
  Fits, IsSynced, IsTables, removed, removed_intro,
}
use community_integrations.Iceberg.Partitions.Causes.{
  new_known, updated_known, deleted_known, column, known, transform_of, removed_updated, listed,
}

no_member : {A : Type 0} (a : A) (xs : List A) → is_empty xs ≡ true → In a xs → ⊥
no_member a [] h i = i
no_member a (x ∷ xs) h i = cc

module _ {Time T : Type 0} (cal : Calendar Time) {api : Tables T} (law : IsTables api) (t : T)
    (dimensions : List (Dimension Time)) (prefix : String) where
  abbrev pub m : PartitionMapper Time
  m = record { schema = api.schema t; spec = api.spec t; dimensions = dimensions }

  module _ (c : Changes Time) (computed : changes cal m ≡ ok c) where
    abbrev new_ok :
        (d : Dimension Time)
        → In d c.new
        → (t : Transform) × (transform_for cal d.partitions ≡ ok t)
    new_ok d i =
        known cal m (law.lawful t) c computed d
          (new_In cal m d c.new (new_known cal m (law.lawful t) c computed) i)

    abbrev updated_ok :
        (d : Dimension Time)
        → In d c.updated
        → (t : Transform) × (transform_for cal d.partitions ≡ ok t)
    updated_ok d i =
        known cal m (law.lawful t) c computed d
          (updated_In cal m d c.updated (updated_known cal m (law.lawful t) c computed) i)

    abbrev r : Recorded
    r = record_changes cal m prefix c

    quiet : r.raised ≡ none
    quiet = Record.block_raised cal m prefix c new_ok updated_ok

    -- What is added is one of the dimensions.
    added_name :
        (e : String) (tr : Transform) (n : String)
        → Record.Cause cal m prefix c new_ok updated_ok (add_field e tr n)
        → In e (names cal m)
    added_name e tr n (Record.added d s (inl i) h u) =
        let same : e ≡ d.partition_expr = ground arith in
        subst (λ k. In k (names cal m)) (sym same)
          (In-map (λ (d : Dimension Time). d.partition_expr) d dimensions
            (new_In cal m d c.new (new_known cal m (law.lawful t) c computed) i))
    added_name e tr n (Record.added d s (inr i) h u) =
        let same : e ≡ d.partition_expr = ground arith in
        subst (λ k. In k (names cal m)) (sym same)
          (In-map (λ (d : Dimension Time). d.partition_expr) d dimensions
            (updated_In cal m d c.updated (updated_known cal m (law.lawful t) c computed) i))
    added_name e tr n (Record.replaced d f i h u) = cc
    added_name e tr n (Record.dropped f i u) = cc

    module _ (done : (api.commit r t).0 ≡ none) where
      abbrev after : T
      after = (api.commit r t).1

      abbrev Covered : Dimension Time → Type 0
      Covered d =
          (b : Column) × (f : PartitionField) × ((api.schema after).find_field d.partition_expr
            ≡ some b)
          × In f (api.spec after)
          × (f.source_id ≡ b.field_id)
          × Fits cal d.partitions f.transform

      -- A dimension that is added is covered.
      added-Covered :
          (d : Dimension Time)
          → In d dimensions
          → ((tr : Transform)
              → transform_for cal d.partitions ≡ ok tr
              → In (Record.addition cal m prefix d tr) r.updates)
          → Covered d
      added-Covered d i adds =
          let (b, found) = column cal m (law.lawful t) c computed d i in
          let (tr, h, fits, _) =
            transform_of cal m (law.lawful t) c computed d d.partitions i refl in
          (
            b,
            record {
              source_id = b.field_id;
              name = partition_field_name_for d.partition_expr prefix;
              transform = tr;
            },
            rw (law.kept r t done) found,
            (law.committed r t quiet done _).1
                (inr (d.partition_expr, tr, _, b, adds tr h, found, refl)),
            refl,
            fits,
          )

      Covered-new : (d : Dimension Time) → In d dimensions → In d c.new → Covered d
      Covered-new d i j =
          added-Covered d i (λ tr h. Record.block_new cal m prefix c new_ok updated_ok d tr j h)

      Covered-updated : (d : Dimension Time) → In d dimensions → In d c.updated → Covered d
      Covered-updated d i j =
          added-Covered d i (λ tr h. Record.block_updated cal m prefix c new_ok updated_ok d tr j h)

      covered : (d : Dimension Time) → In d dimensions → Covered d
      covered d i =
          elim (new_or_field cal m (law.lawful t) d c.new i
            (new_known cal m (law.lawful t) c computed)) [
              | inl fresh ↦ Covered-new d i fresh
              | inr (f, pf) ↦
                  let (tr, h, fits, keeps) =
                    transform_of cal m (law.lawful t) c computed d d.partitions i refl in
                  let (b, found) = column cal m (law.lawful t) c computed d i in
                  let (in_spec, over) =
                    partition_field_parts m.schema m.spec d.partition_expr found pf in
                  elim (keeps f pf) [
                    | inl changed ↦ Covered-updated d i changed
                    | inr fit ↦ elim (Bool-cases (contains (removed r.updates) f.name)) [
                      | inl gone ↦ Covered-updated d i (
                          removed_updated cal m (law.lawful t) c computed (law.unique t) prefix d f
                            i pf gone)
                      | inr left ↦ (
                        b,
                        f,
                        rw (law.kept r t done) found,
                        (law.committed r t quiet done f).1 (inl (in_spec, left)),
                        over,
                        fit,
                      )
                    ]
                  ]
            ]

      -- A field that is left is over a column of the dimensions.
      clean :
          (f : PartitionField) (b : Column)
          → In f (api.spec after)
          → column_by_id (api.schema t).fields f.source_id ≡ some b
          → In b.name (map (λ (d : Dimension Time). d.partition_expr) dimensions)
      clean f b i at = elim ((law.committed r t quiet done f).0 i) [
        | inl (old, left) ↦ elim (Bool-cases (contains (names cal m) b.name)) [
          | inl listed ↦ In-of_contains b.name (names cal m) listed
          | inr missing ↦
              let test : is_deleted m.schema (names cal m) f ≡ true =
                rw (at, is_deleted) (rw missing) in
              let dropped : In f c.deleted =
                rw (deleted_known cal m (law.lawful t) c computed)
                  (In-keep_intro _ f m.spec old test) in
              let gone =
                removed_intro f.name r.updates
                  (Record.block_deleted cal m prefix c new_ok updated_ok f dropped) in
              absurd (ground (arith, gone, left))
        ]
        | inr (e, tr, n, col, j, found, same) ↦
            let (col_at, col_name) = (law.lawful t).found e found in
            let both : some b ≡ some col =
              sym at
              ∙ ap (λ (g : PartitionField). column_by_id m.schema.fields g.source_id) same
              ∙ col_at in
            let same_name : b.name ≡ e = ground arith in
            subst (λ k. In k (names cal m)) (sym same_name)
              (added_name e tr n
                (Record.block-Cause cal m prefix c new_ok updated_ok (add_field e tr n) j))
      ]

      pub synced : IsSynced cal dimensions (api.schema after) (api.spec after)
      synced = record {
        covered = covered;
        clean = λ f b i at. clean f b i (rw (sym (law.kept r t done)) at);
      }

    -- Where there is nothing to change, the spec fits already.
    pub unchanged-IsSynced :
        is_unchanged cal c ≡ true → IsSynced cal dimensions (api.schema t) (api.spec t)
    unchanged-IsSynced h = record {
      covered = λ d i.
          let (tr, k, fits, keeps) =
            transform_of cal m (law.lawful t) c computed d d.partitions i refl in
          let (b, found) = column cal m (law.lawful t) c computed d i in
          elim (new_or_field cal m (law.lawful t) d c.new i
            (new_known cal m (law.lawful t) c computed)) [
              | inl fresh ↦ absurd (no_member d c.new (ground arith) fresh)
              | inr (f, pf) ↦
                  let (in_spec, over) =
                    partition_field_parts m.schema m.spec d.partition_expr found pf in
                  elim (keeps f pf) [
                    | inl changed ↦ absurd (no_member d c.updated (ground arith) changed)
                    | inr fit ↦ (b, f, found, in_spec, over, fit)
                  ]
            ];
      clean = λ f b i at. elim (Bool-cases (contains (names cal m) b.name)) [
        | inl listed ↦ In-of_contains b.name (names cal m) listed
        | inr missing ↦
            let test : is_deleted m.schema (names cal m) f ≡ true =
              rw (at, is_deleted) (rw missing) in
            let dropped : In f c.deleted =
              rw (deleted_known cal m (law.lawful t) c computed)
                (In-keep_intro _ f m.spec i test) in
            absurd (no_member f c.deleted (ground arith) dropped)
      ];
    }
