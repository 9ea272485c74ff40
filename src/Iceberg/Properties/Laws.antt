-- ===== src/Iceberg/Properties/Laws.antt =====
-- What `update_table_properties` leaves.
use community_integrations.Base.{
  ◌≡◌, ◌↔◌, ◌⊎◌, refl, not, ◌&&◌, true, false, String, List, [], ◌∷◌, none, ◌==◌, contains, Eq,
  string_eq, option_eq, nat_eq, arith, Bool-cases, inl, inr,
}
use community_integrations.Base.Dict.{get, keys, contains-keys}
use community_integrations.Base.Lists.{length, contains-keep, contains-difference}
use community_integrations.Iceberg.Error.{Error, is_commit_failed}
use community_integrations.Iceberg.Retry.{Retrying, IsRetrying}
use community_integrations.Iceberg.Retry.Laws.{execute_post, execute_inv}
use community_integrations.Iceberg.Properties.{
  Properties, updated_properties, deleted_properties, new_properties, has_changes, Tables, IsTables,
  update_properties, update_table_properties,
}

length_zero : {A : Type 0} ⦃e : Eq A⦄ (xs : List A) (a : A) → length xs ≡ 0 → contains xs a ≡ false
length_zero [] a h = refl
length_zero (x ∷ xs) a h = absurd (omega arith)

empty_of_contains :
    {A : Type 0} ⦃e : Eq A⦄ (xs : List A) → ((a : A) → contains xs a ≡ false) → length xs ≡ 0
empty_of_contains [] h = refl
empty_of_contains (x ∷ xs) h = absurd (ground (arith, h x))

module _ (current new : Properties) (k : String) where
  contains-updated :
      contains (updated_properties current new) k
      ≡ (contains (keys new) k && (contains (keys current) k && not (get current k == get new k)))
  unfolding updated_properties
  contains-updated =
      contains-keep (λ k. contains (keys current) k && not (get current k == get new k)) (keys new)
        k

  contains-deleted :
      contains (deleted_properties current new) k
      ≡ (contains (keys current) k && not (contains (keys new) k))
  unfolding deleted_properties
  contains-deleted = contains-difference (keys current) (keys new) k

  contains-new :
      contains (new_properties current new) k
      ≡ (contains (keys new) k && not (contains (keys current) k))
  unfolding new_properties
  contains-new = contains-difference (keys new) (keys current) k

-- `has_changes` is false exactly if both hold the same value, or none, at every key.
pub has_property_changes_iff :
    (current new : Properties)
    → (has_changes current new ≡ false) ↔ ((k : String) → get current k ≡ get new k)
unfolding has_changes
has_property_changes_iff current new = (
  λ h k. ground (
    arith,
    length_zero (updated_properties current new) k (ground arith),
    length_zero (deleted_properties current new) k (ground arith),
    length_zero (new_properties current new) k (ground arith),
    contains-updated current new k,
    contains-deleted current new k,
    contains-new current new k,
    contains-keys current k,
    contains-keys new k,
  ),
  λ same. ground (
    arith,
    empty_of_contains (updated_properties current new)
        (λ k. ground (arith, same k, contains-updated current new k)),
    empty_of_contains (deleted_properties current new) (λ k. ground (
      arith,
      same k,
      contains-deleted current new k,
      contains-keys current k,
      contains-keys new k,
    )),
    empty_of_contains (new_properties current new) (λ k.
        ground (
          arith,
          same k,
          contains-new current new k,
          contains-keys current k,
          contains-keys new k,
        )),
  ),
)

module _ {T : Type 0} {api : Tables T} (law : IsTables api) where
  get-update_properties :
      (current new : Properties) (t : T)
      → has_changes current new ≡ true
      → (update_properties api current new t).0 ≡ none
      → (k : String) → (contains (keys new) k ≡ true) ⊎ (contains (keys current) k ≡ true)
      → get (api.properties (update_properties api current new t).1) k ≡ get new k
  unfolding update_properties
  get-update_properties current new t changed done k known = ground (
    arith,
    law.committed (deleted_properties current new) new t k,
    contains-deleted current new k,
    contains-keys new k,
  )

  -- If the properties passed differ from the current ones, then after a run that raised nothing the
  -- table has, at every key of either, the value passed, or none if none is passed.
  pub get-update_table_properties :
      {R : Retrying Error T}
      → IsRetrying R
      → (current new : Properties) (t : T) → has_changes current new ≡ true
      → (update_table_properties api R current new t).0 ≡ none
      → (k : String) → (contains (keys new) k ≡ true) ⊎ (contains (keys current) k ≡ true)
      → get (api.properties (update_table_properties api R current new t).1) k ≡ get new k
  unfolding update_table_properties
  get-update_table_properties retrying current new t changed =
      execute_post (update_properties api current new) api.refresh is_commit_failed
        (λ s.
          (k : String)
          → (contains (keys new) k ≡ true) ⊎ (contains (keys current) k ≡ true)
          → get (api.properties s) k ≡ get new k)
        retrying 3 t (λ s. get-update_properties current new s changed)

module _ {T : Type 0} (api : Tables T) where
  -- A run keeps whatever commits and refreshes keep.
  pub update_table_properties_inv :
      {R : Retrying Error T}
      → IsRetrying R
      → (P : T → Type 0)
      → ((removed : List String) (set : Properties) (t : T) → P t → P (api.commit removed set t).1)
      → ((t : T) → P t → P (api.refresh t).1)
      → (current new : Properties) (t : T) → P t
      → P (update_table_properties api R current new t).1
  unfolding update_table_properties update_properties
  update_table_properties_inv retrying P commits refreshed current new t =
      execute_inv (update_properties api current new) api.refresh is_commit_failed P
        (λ s h. elim (Bool-cases (has_changes current new)) [
          | inr same ↦ rw same h
          | inl changed ↦ rw changed (commits (deleted_properties current new) new s h)
        ])
        refreshed retrying 3 t
