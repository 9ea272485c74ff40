-- ===== src/Iceberg/Partitions/Typed.antt =====
-- `update_table_partition_spec`: what it keeps, and what its ending says of the dimensions' columns.
use community_integrations.Base.{
  ◌≡◌, refl, String, List, [], ◌∷◌, none, string_eq, arith, ok, err, true, false, inl, inr,
  Bool-cases, bind_returned, Bool, Result, ◌⊎◌, ◌==◌,
}
use community_integrations.Base.Lists.{is_empty}
use community_integrations.Iceberg.Error.{Error, is_value_error}
use community_integrations.Iceberg.Retry.{Retrying, IsRetrying}
use community_integrations.Iceberg.Retry.Laws.{execute_post, execute_inv}
use community_integrations.Iceberg.Window.{Calendar}
use community_integrations.Iceberg.Partitions.{Dimension}
use community_integrations.Iceberg.Partitions.Mapper.{
  PartitionMapper, check_types, get_dimensions, new_dimensions,
}
use community_integrations.Iceberg.Partitions.Updater.{
  Tables, Recorded, Changes, changes, record_changes, update_table_spec, update_spec,
  update_table_partition_spec, has_spec_changes, record_block,
}
use community_integrations.Iceberg.Partitions.Sync.{IsTables}
use community_integrations.Iceberg.Partitions.Commit.{m}
use community_integrations.Iceberg.Partitions.Update.{update_spec_ended}

is_empty-nil : {A : Type 0} (xs : List A) → is_empty xs ≡ true → xs ≡ []
is_empty-nil [] h = refl
is_empty-nil (x ∷ xs) h = cc

module _ {Time : Type 0} (cal : Calendar Time) where
  get_dimensions-typed :
      (p : PartitionMapper Time) (ds : List (Dimension Time))
      → get_dimensions p true ≡ ok ds
      → check_types p.schema p.dimensions ≡ ok tt
  unfolding get_dimensions check_types
  get_dimensions-typed p ds h = elim (Bool-cases (is_empty p.dimensions)) [
    | inl empty ↦ rw (is_empty-nil p.dimensions empty) refl
    | inr some_left ↦ go (check_types p.schema p.dimensions) refl some_left
  ]
    where
      go :
          (r : Result Error (Unit {0}))
          → check_types p.schema p.dimensions ≡ r
          → is_empty p.dimensions ≡ false
          → check_types p.schema p.dimensions ≡ ok tt
      go (ok tt) e some_left = e
      go (err x) e some_left = absurd (ground arith)

  changes-typed :
      (p : PartitionMapper Time) (c : Changes Time)
      → changes cal p ≡ ok c
      → check_types p.schema p.dimensions ≡ ok tt
  unfolding changes new_dimensions
  changes-typed p c h =
      let (new, got, _) = bind_returned _ (new_dimensions p) h in
      let (ds, read, _) = bind_returned _ (get_dimensions p true) got in
      get_dimensions-typed p ds read

module _ {Time T : Type 0} (cal : Calendar Time) {api : Tables T} where
  update_spec-typed :
      IsTables api
      → (dimensions : List (Dimension Time)) (mode prefix : String) (t : T)
      → (update_spec cal api dimensions mode prefix t).0 ≡ none
      → check_types (api.schema (update_spec cal api dimensions mode prefix t).1) dimensions ≡ ok tt
  update_spec-typed law dimensions mode prefix t h =
      let (c, computed, end) = update_spec_ended cal law dimensions mode prefix t h in
      let typed = changes-typed cal (m cal law t dimensions prefix) c computed in
      elim end [
        | inl (same, e) ↦ rw e typed
        | inr (done, e) ↦
            rw (e, law.kept (record_changes cal (m cal law t dimensions prefix) prefix c) t done)
              typed
      ]

  -- The columns of the dimensions have the types that suit them.
  pub update_table_partition_spec-typed :
      {R : Retrying Error T}
      → IsTables api
      → IsRetrying R
      → (dimensions : List (Dimension Time)) (mode prefix : String) (t : T)
      → (update_table_partition_spec cal api R dimensions mode prefix t).0 ≡ none
      → check_types
          (api.schema (update_table_partition_spec cal api R dimensions mode prefix t).1)
          dimensions
        ≡ ok tt
  unfolding update_table_partition_spec
  update_table_partition_spec-typed law retrying dimensions mode prefix t =
      execute_post (update_spec cal api dimensions mode prefix) api.refresh is_value_error
        (λ s. check_types (api.schema s) dimensions ≡ ok tt) retrying _ t
        (update_spec-typed law dimensions mode prefix)

module _ {Time T : Type 0} (cal : Calendar Time) (api : Tables T) where
  -- An operation leaves the table or commits once.
  update_spec_commits :
      (dimensions : List (Dimension Time)) (mode prefix : String) (t : T)
      → ((update_spec cal api dimensions mode prefix t).1 ≡ t)
        ⊎ ((r : Recorded) × ((update_spec cal api dimensions mode prefix t).1 ≡ (api.commit r t).1))
  unfolding update_spec update_table_spec
  update_spec_commits dimensions mode prefix t =
      let p : PartitionMapper Time = record {
        schema = api.schema t;
        spec = api.spec t;
        dimensions = dimensions;
      } in
      go p (has_spec_changes cal p) refl
    where
      go :
          (p : PartitionMapper Time) (r : Result Error Bool)
          → has_spec_changes cal p ≡ r
          → ((update_table_spec cal api mode prefix p t).1 ≡ t)
            ⊎ ((r : Recorded) × ((update_table_spec cal api mode prefix p t).1
                  ≡ (api.commit r t).1))
      go p (err x) e = inl (ground arith)
      go p (ok true) e = elim (Bool-cases (mode == "error")) [
        | inl strict ↦ inl (ground arith)
        | inr lax ↦ inr (record_block cal p prefix, ground arith)
      ]
      go p (ok false) e = inl (ground arith)

  -- A run keeps whatever commits and refreshes keep.
  pub update_table_partition_spec_inv :
      {R : Retrying Error T}
      → IsRetrying R
      → (P : T → Type 0) → ((r : Recorded) (t : T) → P t → P (api.commit r t).1)
      → ((t : T) → P t → P (api.refresh t).1)
      → (dimensions : List (Dimension Time)) (mode prefix : String) (t : T) → P t
      → P (update_table_partition_spec cal api R dimensions mode prefix t).1
  unfolding update_table_partition_spec
  update_table_partition_spec_inv retrying P commits refreshed dimensions mode prefix t =
      execute_inv (update_spec cal api dimensions mode prefix) api.refresh is_value_error P
        (λ s h. elim (update_spec_commits dimensions mode prefix s) [
          | inl e ↦ rw e h
          | inr (r, e) ↦ rw e (commits r s h)
        ])
        refreshed retrying _ t
