-- ===== src/Iceberg/Partitions/Record.antt =====
-- What the block of `update_table_spec` records: nothing is raised in it, the new and the updated
-- dimensions are added, and the fields of the updated and the deleted ones are removed.
use community_integrations.Base.{
  ◌≡◌, refl, subst, ◌⊎◌, inl, inr, String, List, [], ◌∷◌, ◌++◌, none, some, arith, ok, Option-cases,
}
use community_integrations.Base.Members.{In, In-append, In-append_left, In-append_right}
use community_integrations.Iceberg.Window.{Transform, Calendar}
use community_integrations.Iceberg.Partitions.{PartitionField, Dimension}
use community_integrations.Iceberg.Partitions.Mapper.{
  PartitionMapper, partition_field_by_source_column,
}
use community_integrations.Iceberg.Partitions.Updater.{
  SpecUpdate, remove_field, add_field, Recorded, Changes, then_record, record_all, spec_delete,
  spec_new, spec_update, record_changes, transform_for, partition_field_name_for,
}

then_record_raised :
    (r s : Recorded) → r.raised ≡ none → s.raised ≡ none → (then_record r (λ _. s)).raised ≡ none
then_record_raised r s h k = ground arith

module _ (r s : Recorded) (quiet : r.raised ≡ none) (u : SpecUpdate) where
  then_record_updates : (then_record r (λ _. s)).updates ≡ r.updates ++ s.updates
  then_record_updates = ground arith

  then_record_left : In u r.updates → In u (then_record r (λ _. s)).updates
  then_record_left i = rw then_record_updates (In-append_left u r.updates s.updates i)

  then_record_right : In u s.updates → In u (then_record r (λ _. s)).updates
  then_record_right i = rw then_record_updates (In-append_right u r.updates s.updates i)

  then_record-In : In u (then_record r (λ _. s)).updates → In u r.updates ⊎ In u s.updates
  then_record-In i = In-append u r.updates s.updates (rw then_record_updates at i)

module _ {A : Type 0} (f : A → Recorded) where
  record_all_raised :
      (xs : List A) → ((x : A) → In x xs → (f x).raised ≡ none) → (record_all f xs).raised ≡ none
  unfolding record_all
  record_all_raised [] h = refl
  record_all_raised (x ∷ xs) h =
      then_record_raised (f x) (record_all f xs) (h x (inl refl))
        (record_all_raised xs (λ y i. h y (inr i)))

  record_all_intro :
      (x : A) (xs : List A) (u : SpecUpdate)
      → ((x : A) → In x xs → (f x).raised ≡ none)
      → In x xs
      → In u (f x).updates
      → In u (record_all f xs).updates
  unfolding record_all
  record_all_intro x [] u h i j = absurd i
  record_all_intro x (y ∷ ys) u h (inl e) j =
      then_record_left (f y) (record_all f ys) (h y (inl refl)) u
        (subst (λ z. In u (f z).updates) e j)
  record_all_intro x (y ∷ ys) u h (inr i) j =
      then_record_right (f y) (record_all f ys) (h y (inl refl)) u
        (record_all_intro x ys u (λ z k. h z (inr k)) i j)

  record_all-In :
      (xs : List A) (u : SpecUpdate)
      → ((x : A) → In x xs → (f x).raised ≡ none)
      → In u (record_all f xs).updates
      → (x : A) × In x xs × In u (f x).updates
  unfolding record_all
  record_all-In [] u h i = absurd i
  record_all-In (y ∷ ys) u h i =
      elim (then_record-In (f y) (record_all f ys) (h y (inl refl)) u i) [
        | inl j ↦ (y, inl refl, j)
        | inr j ↦ let (x, k, l) = record_all-In ys u (λ z k. h z (inr k)) j in (x, inr k, l)
      ]

module _ {Time : Type 0} (cal : Calendar Time) (m : PartitionMapper Time) (prefix : String) where
  abbrev pub addition : Dimension Time → Transform → SpecUpdate
  addition d t = add_field d.partition_expr t (partition_field_name_for d.partition_expr prefix)

  spec_new_lem :
      (d : Dimension Time) (t : Transform)
      → transform_for cal d.partitions ≡ ok t
      → spec_new cal prefix d ≡ record { updates = addition d t ∷ []; raised = none }
  unfolding spec_new
  spec_new_lem d t h = rw (h, spec_new)

  spec_update_raised :
      (d : Dimension Time) (t : Transform)
      → transform_for cal d.partitions ≡ ok t
      → (spec_update cal m prefix d).raised ≡ none
  unfolding spec_update spec_delete
  spec_update_raised d t h = ground (arith, spec_new_lem d t h)

  spec_update_adds :
      (d : Dimension Time) (t : Transform)
      → transform_for cal d.partitions ≡ ok t
      → In (addition d t) (spec_update cal m prefix d).updates
  unfolding spec_update spec_delete
  spec_update_adds d t h =
      elim (Option-cases (partition_field_by_source_column m.schema m.spec d.partition_expr)) [
        | inl fresh ↦ rw fresh (rw (spec_new_lem d t h) (inl refl))
        | inr (f, old) ↦ rw old (rw (spec_new_lem d t h) (inr (inl refl)))
      ]

  spec_update-In :
      (d : Dimension Time) (t : Transform) (u : SpecUpdate)
      → transform_for cal d.partitions ≡ ok t
      → In u (spec_update cal m prefix d).updates
      → (u ≡ addition d t)
        ⊎ ((f : PartitionField) × (partition_field_by_source_column m.schema m.spec d.partition_expr
              ≡ some f)
            × (u ≡ remove_field f.name))
  unfolding spec_update spec_delete
  spec_update-In d t u h i =
      elim (Option-cases (partition_field_by_source_column m.schema m.spec d.partition_expr)) [
        | inl fresh ↦
            let j : In u (addition d t ∷ []) = rw (fresh, spec_new_lem d t h) at i in
            elim j [ inl e ↦ inl e | inr k ↦ absurd k ]
        | inr (f, old) ↦
            let j : In u (remove_field f.name ∷ addition d t ∷ []) =
              rw (old, spec_new_lem d t h) at i in
            elim j [ inl e ↦ inr (f, old, e) | inr (inl e) ↦ inl e | inr (inr k) ↦ absurd k ]
      ]

-- The transforms of the dimensions are known: then the whole block is.
module _ {Time : Type 0} (cal : Calendar Time) (m : PartitionMapper Time) (prefix : String)
    (c : Changes Time)
    (new_ok : (d : Dimension Time)
      → In d c.new
      → (t : Transform) × (transform_for cal d.partitions ≡ ok t))
    (updated_ok : (d : Dimension Time)
      → In d c.updated
      → (t : Transform) × (transform_for cal d.partitions ≡ ok t)) where
  abbrev news : Recorded
  news = record_all (spec_new cal prefix) c.new

  abbrev updates : Recorded
  updates = record_all (spec_update cal m prefix) c.updated

  abbrev deletions : Recorded
  deletions = record_all (λ (f : PartitionField). spec_delete f.name) c.deleted

  abbrev block : Recorded
  block = record_changes cal m prefix c

  new_quiet : (d : Dimension Time) → In d c.new → (spec_new cal prefix d).raised ≡ none
  new_quiet d i = let (t, h) = new_ok d i in rw (spec_new_lem cal m prefix d t h)

  updated_quiet : (d : Dimension Time) → In d c.updated → (spec_update cal m prefix d).raised ≡ none
  updated_quiet d i = let (t, h) = updated_ok d i in spec_update_raised cal m prefix d t h

  deleted_quiet : (f : PartitionField) → In f c.deleted → (spec_delete f.name).raised ≡ none
  unfolding spec_delete
  deleted_quiet f i = refl

  news_raised : news.raised ≡ none
  news_raised = record_all_raised (spec_new cal prefix) c.new new_quiet

  updates_raised : updates.raised ≡ none
  updates_raised = record_all_raised (spec_update cal m prefix) c.updated updated_quiet

  deletions_raised : deletions.raised ≡ none
  deletions_raised =
      record_all_raised (λ (f : PartitionField). spec_delete f.name) c.deleted deleted_quiet

  -- The block ends by itself.
  pub block_raised : block.raised ≡ none
  unfolding record_changes
  block_raised =
      then_record_raised news _ news_raised
        (then_record_raised updates deletions updates_raised deletions_raised)

  pub block_new :
      (d : Dimension Time) (t : Transform)
      → In d c.new
      → transform_for cal d.partitions ≡ ok t
      → In (addition cal m prefix d t) block.updates
  unfolding record_changes
  block_new d t i h = then_record_left news _ news_raised _ (
      record_all_intro (spec_new cal prefix) d c.new _ new_quiet i
        (rw (spec_new_lem cal m prefix d t h) (inl refl)))

  pub block_updated :
      (d : Dimension Time) (t : Transform)
      → In d c.updated
      → transform_for cal d.partitions ≡ ok t
      → In (addition cal m prefix d t) block.updates
  unfolding record_changes
  block_updated d t i h = then_record_right news _ news_raised _ (
      then_record_left updates deletions updates_raised _ (
        record_all_intro (spec_update cal m prefix) d c.updated _ updated_quiet i
          (spec_update_adds cal m prefix d t h)))

  pub block_deleted : (f : PartitionField) → In f c.deleted → In (remove_field f.name) block.updates
  unfolding record_changes spec_delete
  block_deleted f i = then_record_right news _ news_raised _ (
      then_record_right updates deletions updates_raised _ (
        record_all_intro (λ (f : PartitionField). spec_delete f.name) f c.deleted _ deleted_quiet i
          (inl refl)))

  -- What an update in the block is there for.
  pub data Cause (u : SpecUpdate) : Type 0 where
    added :
        (d : Dimension Time) (t : Transform)
        → In d c.new ⊎ In d c.updated
        → transform_for cal d.partitions ≡ ok t
        → u ≡ addition cal m prefix d t
        → Cause u
    replaced :
        (d : Dimension Time) (f : PartitionField)
        → In d c.updated
        → partition_field_by_source_column m.schema m.spec d.partition_expr ≡ some f
        → u ≡ remove_field f.name
        → Cause u
    dropped : (f : PartitionField) → In f c.deleted → u ≡ remove_field f.name → Cause u

  new-Cause : (u : SpecUpdate) → In u news.updates → Cause u
  new-Cause u i =
      let (d, j, k) = record_all-In (spec_new cal prefix) c.new u new_quiet i in
      let (t, h) = new_ok d j in
      let k' : In u (addition cal m prefix d t ∷ []) = rw (spec_new_lem cal m prefix d t h) at k in
      elim k' [ inl e ↦ added d t (inl j) h e | inr l ↦ absurd l ]

  updated-Cause : (u : SpecUpdate) → In u updates.updates → Cause u
  updated-Cause u i =
      let (d, j, k) = record_all-In (spec_update cal m prefix) c.updated u updated_quiet i in
      let (t, h) = updated_ok d j in
      elim (spec_update-In cal m prefix d t u h k) [
        | inl e ↦ added d t (inr j) h e
        | inr (f, found, e) ↦ replaced d f j found e
      ]

  deleted-Cause : (u : SpecUpdate) → In u deletions.updates → Cause u
  unfolding spec_delete
  deleted-Cause u i =
      let (f, j, k) =
        record_all-In (λ (f : PartitionField). spec_delete f.name) c.deleted u deleted_quiet i in
      elim k [ inl e ↦ dropped f j e | inr l ↦ absurd l ]

  pub block-Cause : (u : SpecUpdate) → In u block.updates → Cause u
  unfolding record_changes
  block-Cause u i = elim (then_record-In news _ news_raised u i) [
    | inl j ↦ new-Cause u j
    | inr j ↦ elim (then_record-In updates deletions updates_raised u j) [
      | inl k ↦ updated-Cause u k
      | inr k ↦ deleted-Cause u k
    ]
  ]
