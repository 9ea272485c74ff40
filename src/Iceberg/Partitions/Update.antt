-- ===== src/Iceberg/Partitions/Update.antt =====
-- `update_table_partition_spec`: what a run of it leaves.
use community_integrations.Base.{
  ◌≡◌, refl, ◌⊎◌, inl, inr, true, String, List, none, nat_eq, string_eq, option_eq, arith, Result,
  ok, err, Bool-cases,
}
use community_integrations.Iceberg.Error.{Error, is_value_error}
use community_integrations.Iceberg.Retry.{Retrying, IsRetrying}
use community_integrations.Iceberg.Retry.Laws.{execute_post, execute_inv}
use community_integrations.Iceberg.Window.{Calendar}
use community_integrations.Iceberg.Partitions.{Dimension}
use community_integrations.Iceberg.Partitions.Updater.{
  Tables, Changes, changes, has_spec_changes, is_unchanged, record_changes, record_block,
  update_table_spec, update_spec, update_table_partition_spec,
}
use community_integrations.Iceberg.Partitions.Sync.{IsSynced, IsTables}
use community_integrations.Iceberg.Partitions.Commit.{m, synced, unchanged-IsSynced}

module _ {Time T : Type 0} (cal : Calendar Time) {api : Tables T} (law : IsTables api) where
  -- An operation that raised nothing had nothing to change, or has committed its changes.
  pub update_spec_ended :
      (dimensions : List (Dimension Time)) (mode prefix : String) (t : T)
      → (update_spec cal api dimensions mode prefix t).0 ≡ none
      → (c : Changes Time) × (changes cal (m cal law t dimensions prefix) ≡ ok c)
        × (((is_unchanged cal c ≡ true) × ((update_spec cal api dimensions mode prefix t).1 ≡ t))
            ⊎ (let r = record_changes cal (m cal law t dimensions prefix) prefix c in
                ((api.commit r t).0 ≡ none)
                × ((update_spec cal api dimensions mode prefix t).1 ≡ (api.commit r t).1)))
  unfolding update_spec update_table_spec has_spec_changes record_block
  update_spec_ended dimensions mode prefix t h =
      go (changes cal (m cal law t dimensions prefix)) refl
    where
      go :
          (r : Result Error (Changes Time))
          → changes cal (m cal law t dimensions prefix) ≡ r
          → (c : Changes Time) × (changes cal (m cal law t dimensions prefix) ≡ ok c)
            × (((is_unchanged cal c ≡ true)
                  × ((update_spec cal api dimensions mode prefix t).1 ≡ t))
                ⊎ (let r = record_changes cal (m cal law t dimensions prefix) prefix c in
                    ((api.commit r t).0 ≡ none)
                    × ((update_spec cal api dimensions mode prefix t).1 ≡ (api.commit r t).1)))
      go (err x) e = absurd (ground arith)
      go (ok c) e = (
        c,
        e,
        elim (Bool-cases (is_unchanged cal c)) [
          | inl same ↦ inl (same, ground arith)
          | inr differ ↦ inr (ground arith, ground arith)
        ],
      )

  update_spec-IsSynced :
      (dimensions : List (Dimension Time)) (mode prefix : String) (t : T)
      → (update_spec cal api dimensions mode prefix t).0 ≡ none
      → let s = (update_spec cal api dimensions mode prefix t).1 in
        IsSynced cal dimensions (api.schema s) (api.spec s)
  update_spec-IsSynced dimensions mode prefix t h =
      let (c, computed, end) = update_spec_ended dimensions mode prefix t h in
      elim end [
        | inl (same, e) ↦ rw e (unchanged-IsSynced cal law t dimensions prefix c computed same)
        | inr (done, e) ↦ rw e (synced cal law t dimensions prefix c computed done)
      ]

  -- After a run that raised nothing, in either mode, every dimension of the asset has a partition
  -- field over its column, with the transform of its window if it is a time window, and no
  -- partition field is over a column of the table that is not one of the dimensions'.
  pub update_table_partition_spec-IsSynced :
      {R : Retrying Error T}
      → IsRetrying R
      → (dimensions : List (Dimension Time)) (mode prefix : String) (t : T)
      → (update_table_partition_spec cal api R dimensions mode prefix t).0 ≡ none
      → let s = (update_table_partition_spec cal api R dimensions mode prefix t).1 in
        IsSynced cal dimensions (api.schema s) (api.spec s)
  unfolding update_table_partition_spec
  update_table_partition_spec-IsSynced retrying dimensions mode prefix t =
      execute_post (update_spec cal api dimensions mode prefix) api.refresh is_value_error
        (λ s. IsSynced cal dimensions (api.schema s) (api.spec s)) retrying _ t
        (update_spec-IsSynced dimensions mode prefix)

  update_spec_error :
      (dimensions : List (Dimension Time)) (prefix : String) (t : T)
      → (update_spec cal api dimensions "error" prefix t).1 ≡ t
  unfolding update_spec update_table_spec string_eq
  update_spec_error dimensions prefix t = ground arith

  -- In the mode "error" nothing is committed: a run keeps whatever a refresh keeps.
  pub update_table_partition_spec_error :
      {R : Retrying Error T}
      → IsRetrying R
      → (P : T → Type 0) → ((t : T) → P t → P (api.refresh t).1)
      → (dimensions : List (Dimension Time)) (prefix : String) (t : T) → P t
      → P (update_table_partition_spec cal api R dimensions "error" prefix t).1
  unfolding update_table_partition_spec
  update_table_partition_spec_error retrying P refreshed dimensions prefix t =
      execute_inv (update_spec cal api dimensions "error" prefix) api.refresh is_value_error P
        (λ s h. rw update_spec_error h) refreshed retrying _ t
