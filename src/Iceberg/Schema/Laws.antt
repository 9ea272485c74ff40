-- ===== src/Iceberg/Schema/Laws.antt =====
-- What `update_table_schema` leaves.
use community_integrations.Base.{
  String, ◌≡◌, ◌↔◌, refl, sym, ◌∙◌, ◌&&◌, ◌||◌, not, true, false, none, some, List, [], ◌∷◌, ◌++◌,
  map, ap, arith, contains, string_eq, list_eq, if◌then◌else◌, Eq, Bool-cases, inl, inr, ◌==◌,
}
use community_integrations.Base.Lists.{difference, contains-difference, is_empty, count}
use community_integrations.Base.Sorting.{
  sort, str_le, str_le-IsTotalOrder, count-sort, contains-sort, sort-eq_of_count,
}
use community_integrations.Iceberg.Error.{Error, value_error, schema_changes, is_value_error}
use community_integrations.Iceberg.Retry.{Retrying, IsRetrying}
use community_integrations.Iceberg.Retry.Laws.{execute_post, execute_inv, execute_outcome}
use community_integrations.Iceberg.Schema.{
  SchemaUpdate, delete_column, union_by_name, deletes, unites, Tables, IsTables, has_changes,
  deleted_columns, new_columns, schema_updates, update_schema, update_table_schema,
}

-- `has_changes` is false exactly if both schemas have the same column names, as often.
has_changes_iff :
    (current new : List String)
    → (has_changes current new ≡ false) ↔ ((a : String) → count a current ≡ count a new)
unfolding has_changes
has_changes_iff current new = (
  λ h a.
      let same : sort str_le current ≡ sort str_le new = ground arith in
      sym (count-sort str_le current a) ∙ ap (count a) same ∙ count-sort str_le new a,
  λ h. rw (sort-eq_of_count str_le str_le-IsTotalOrder current new h) (ground arith),
)

has_changes-contains :
    (current new : List String) (a : String)
    → has_changes current new ≡ false
    → contains current a ≡ contains new a
unfolding has_changes
has_changes-contains current new a h =
    let same : sort str_le current ≡ sort str_le new = ground arith in
    sym (contains-sort str_le current a)
    ∙ ap (λ xs. contains xs a) same
    ∙ contains-sort str_le new a

deletes-append :
    (a : String) (us vs : List SchemaUpdate) → deletes a (us ++ vs) ≡ (deletes a us || deletes a vs)
deletes-append a [] vs = refl
deletes-append a (delete_column c ∷ us) vs = ground (arith, deletes-append a us vs)
deletes-append a (union_by_name cs ∷ us) vs = deletes-append a us vs

unites-append :
    (a : String) (us vs : List SchemaUpdate) → unites a (us ++ vs) ≡ (unites a us || unites a vs)
unites-append a [] vs = refl
unites-append a (delete_column c ∷ us) vs = unites-append a us vs
unites-append a (union_by_name cs ∷ us) vs = ground (arith, unites-append a us vs)

deletes-map : (a : String) (cs : List String) → deletes a (map delete_column cs) ≡ contains cs a
deletes-map a [] = refl
deletes-map a (c ∷ cs) = ground (arith, deletes-map a cs)

unites-map : (a : String) (cs : List String) → unites a (map delete_column cs) ≡ false
unites-map a [] = refl
unites-map a (c ∷ cs) = unites-map a cs

contains_of_empty {ℓ} :
    {A : Type ℓ} ⦃e : Eq A⦄ (xs : List A) (a : A) → is_empty xs ≡ true → contains xs a ≡ false
contains_of_empty [] a h = refl
contains_of_empty (x ∷ xs) a h = cc

-- Whatever was there: what is deleted goes, what is united comes, and the names are the new ones.
schema_updates_effect :
    (current new : List String) (a : String)
    → (unites a (schema_updates current new)
        || contains current a && not (deletes a (schema_updates current new)))
      ≡ contains new a
unfolding schema_updates deleted_columns new_columns
schema_updates_effect current new a = elim (Bool-cases (is_empty (difference new current))) [
  | inl none_new ↦ rw none_new (
      simp (deletes-append, unites-append, deletes-map, unites-map)
        (ground (
          arith,
          contains-difference current new a,
          contains-difference new current a,
          contains_of_empty (difference new current) a none_new,
        )))
  | inr some_new ↦ rw some_new (
      simp (deletes-append, unites-append, deletes-map, unites-map)
        (ground (arith, contains-difference current new a)))
]

module _ {T : Type 0} {api : Tables T} (law : IsTables api) where
  update_schema_names :
      (mode : String) (new : List String) (t : T)
      → (update_schema api mode new t).0 ≡ none
      → (a : String) → contains (api.names (update_schema api mode new t).1) a ≡ contains new a
  unfolding update_schema
  update_schema_names mode new t done a = elim (Bool-cases (has_changes (api.names t) new)) [
    | inr same ↦ rw same (ground (arith, has_changes-contains (api.names t) new a same))
    | inl changed ↦
        let us : List SchemaUpdate = schema_updates (api.names t) new in
        ground (arith, changed, law.committed us t a, schema_updates_effect (api.names t) new a)
  ]

  -- After a run that raised nothing, the table has exactly the columns of the new schema, in either
  -- mode.
  pub update_table_schema_names :
      {R : Retrying Error T}
      → IsRetrying R
      → (mode : String) (new : List String) (t : T)
      → (update_table_schema api R mode new t).0 ≡ none
      → (a : String)
      → contains (api.names (update_table_schema api R mode new t).1) a ≡ contains new a
  unfolding update_table_schema
  update_table_schema_names retrying mode new t =
      execute_post (update_schema api mode new) api.refresh is_value_error
        (λ s. (a : String) → contains (api.names s) a ≡ contains new a) retrying 6 t
        (update_schema_names mode new)

  update_schema_error :
      (new : List String) (t : T)
      → update_schema api "error" new t
        ≡ ((if has_changes (api.names t) new then some (value_error schema_changes) else none), t)
  unfolding update_schema string_eq
  update_schema_error new t = ground arith

  -- In the mode "error" nothing is committed: a run keeps whatever a refresh keeps.
  pub update_table_schema_error :
      {R : Retrying Error T}
      → IsRetrying R
      → (P : T → Type 0) → ((t : T) → P t → P (api.refresh t).1)
      → (new : List String) (t : T) → P t
      → P (update_table_schema api R "error" new t).1
  unfolding update_table_schema
  update_table_schema_error retrying P refreshed new t =
      execute_inv (update_schema api "error" new) api.refresh is_value_error P
        (λ s h. rw update_schema_error h) refreshed retrying 6 t

  update_table_schema_outcome :
      {R : Retrying Error T}
      → IsRetrying R
      → ((t : T) → (api.refresh t).0 ≡ none)
      → ((t : T) → api.names (api.refresh t).1 ≡ api.names t)
      → (new : List String) (t : T)
      → (update_table_schema api R "error" new t).0
        ≡ (if has_changes (api.names t) new then some (value_error schema_changes) else none)
  unfolding update_table_schema
  update_table_schema_outcome retrying quiet same new t =
      execute_outcome (update_schema api "error" new) api.refresh is_value_error
        (λ s. api.names s ≡ api.names t) _ (λ s h. rw (update_schema_error, h) (refl, refl))
        (λ s h. (quiet s, same s ∙ h)) retrying 6 t refl

  -- Where a refresh raises nothing and keeps the names, a run in the mode "error" raises nothing
  -- exactly if every name stands as often in the table as in the new schema, in whatever order, and
  -- else the error that names the changes.
  pub update_table_schema_error_iff :
      {R : Retrying Error T}
      → IsRetrying R
      → ((t : T) → (api.refresh t).0 ≡ none)
      → ((t : T) → api.names (api.refresh t).1 ≡ api.names t)
      → (new : List String) (t : T)
      → let raised = (update_table_schema api R "error" new t).0 in
        let IsSame = (a : String) → count a (api.names t) ≡ count a new in
        ((raised ≡ none) ↔ IsSame) × ((raised ≡ some (value_error schema_changes)) ↔ (¬ IsSame))
  update_table_schema_error_iff {R} retrying quiet same new t =
      let outcome = update_table_schema_outcome retrying quiet same new t in
      let (to, from) = has_changes_iff (api.names t) new in
      elim (Bool-cases (has_changes (api.names t) new)) [
        | inr unchanged ↦
            let nothing : (update_table_schema api R "error" new t).0 ≡ none =
              rw (outcome, unchanged) refl in
            ((λ h. to unchanged, λ h. nothing), (λ h. absurd (cc), λ h. absurd (h (to unchanged))))
        | inl changed ↦
            let error : (update_table_schema api R "error" new t).0
                ≡ some (value_error schema_changes) =
              rw (outcome, changed) refl in
            (
              (λ h. absurd (cc), λ h. let unchanged = from h in absurd (cc)),
              (λ h alike. let unchanged = from alike in cc, λ h. error),
            )
      ]

module _ {T : Type 0} (api : Tables T) where
  -- A run keeps whatever commits and refreshes keep.
  pub update_table_schema_inv :
      {R : Retrying Error T}
      → IsRetrying R
      → (P : T → Type 0) → ((us : List SchemaUpdate) (t : T) → P t → P (api.commit us t).1)
      → ((t : T) → P t → P (api.refresh t).1)
      → (mode : String) (new : List String) (t : T) → P t
      → P (update_table_schema api R mode new t).1
  unfolding update_table_schema update_schema
  update_table_schema_inv retrying P commits refreshed mode new t =
      execute_inv (update_schema api mode new) api.refresh is_value_error P
        (λ s h. elim (Bool-cases (has_changes (api.names s) new)) [
          | inr same ↦ rw same (elim (Bool-cases (mode == "error")) [
            | inl strict ↦ rw strict h
            | inr lax ↦ rw lax h
          ])
          | inl changed ↦ rw changed (elim (Bool-cases (mode == "error")) [
            | inl strict ↦ rw strict h
            | inr lax ↦ rw lax (commits (schema_updates (api.names s) new) s h)
          ])
        ])
        refreshed retrying 6 t
