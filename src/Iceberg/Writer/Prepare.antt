-- ===== src/Iceberg/Writer/Prepare.antt =====
-- `table_writer`, up to the write: the table is made or updated.
use community_integrations.Base.{
  ◌≡◌, refl, sym, ◌∙◌, ap, arith, not, Bool, false, String, List, [], Option, none, some, ok,
}
use community_integrations.Base.Lists.{is_empty}
use community_integrations.Base.Action.{skip, ◌>>◌}
use community_integrations.Base.Action.Hoare.{Ensures, then-Ensures, both-Ensures, if-Ensures}
use community_integrations.Iceberg.Error.{
  Error, no_such_table, value_error, not_implemented, commit_failed, stop_iteration, index_error,
  table_already_exists, other, is_create_conflict,
}
use community_integrations.Iceberg.Retry.{Retrying, IsRetrying, execute}
use community_integrations.Iceberg.Retry.Hoare.{execute-Ensures, Attempt}
use community_integrations.Iceberg.Window.{Calendar}
use community_integrations.Iceberg.Partitions.{Dimension}
use community_integrations.Iceberg.Partitions.Mapper.{check_types}
use community_integrations.Iceberg.Partitions.Typed.{
  update_table_partition_spec-typed, update_table_partition_spec_inv,
}
use community_integrations.Iceberg.Predicates.{Bound}
use community_integrations.Iceberg.Predicates.Select.{Rows}
use community_integrations.Iceberg.Properties as Props
use community_integrations.Iceberg.Properties.Laws.{update_table_properties_inv}
use community_integrations.Iceberg.Schema.{update_table_schema}
use community_integrations.Iceberg.Schema.Laws.{update_table_schema_inv}
use community_integrations.Iceberg.Writer.{
  or_nothing, Config, Catalog, or_no_dimensions, update_spec_of, update_spec_if,
  update_properties_of, update_existing, create_table, create_new, existing_or, if_exists,
}
use community_integrations.Iceberg.Writer.Rows.{Holds, IsReady, Contents, IsCatalog}

module _ {T D Row Time Day : Type 0} {api : Catalog T D} {contents : Contents T D Row}
    {rows : Rows Row (Bound Time Day)} (law : IsCatalog api contents rows) (had : Row → Bool)
    (cal : Calendar Time) {R : Retrying Error T} (retrying : IsRetrying R) where
  abbrev Held : T → Type 0
  Held = Holds contents had

  abbrev Ready : Option (List (Dimension Time)) → T → Type 0
  Ready = IsReady api contents had

  abbrev Typed : Option (List (Dimension Time)) → T → Type 0
  Typed ds t = check_types (api.spec_api.schema t) (or_no_dimensions ds) ≡ ok tt

  Held-update_spec_of :
      (config : Config) (mode : String) (ds : List (Dimension Time))
      → Ensures Held (update_spec_of api cal R config mode ds) Held
  Held-update_spec_of config mode ds t h done =
      update_table_partition_spec_inv cal api.spec_api retrying Held
        (λ r s held row. law.spec_kept r s row ∙ held row)
        (λ s held row. (law.refreshed s).0 row ∙ held row) ds mode
        config.partition_field_name_prefix t h

  update_spec_of-Ensures :
      (config : Config) (mode : String) (ds : List (Dimension Time))
      → Ensures Held (update_spec_of api cal R config mode ds) (Ready (some ds))
  update_spec_of-Ensures config mode ds =
      both-Ensures Held Held (Typed (some ds)) (update_spec_of api cal R config mode ds)
        (Held-update_spec_of config mode ds)
        (λ t held.
          update_table_partition_spec-typed cal law.spec_law retrying ds mode
            config.partition_field_name_prefix t)

  Held-refresh : Ensures Held api.spec_api.refresh Held
  Held-refresh t held done row = (law.refreshed t).0 row ∙ held row

  -- Where the slice has no dimensions, there is nothing to check.
  update_spec_if-Ensures :
      (config : Config) (ds : Option (List (Dimension Time))) (has_spec : Bool)
      → Ensures Held (update_spec_if api cal R config ds has_spec) (Ready ds)
  unfolding update_spec_if check_types
  update_spec_if-Ensures config (some ds) has_spec =
      then-Ensures Held Held (Ready (some ds)) api.spec_api.refresh
        (update_spec_of api cal R config config.partition_spec_update_mode ds) Held-refresh
        (update_spec_of-Ensures config config.partition_spec_update_mode ds)
  update_spec_if-Ensures config none has_spec =
      if-Ensures Held (Ready none) has_spec
        (api.spec_api.refresh
          >> update_spec_of api cal R config config.partition_spec_update_mode [])
        skip
        (then-Ensures Held Held (Ready none) api.spec_api.refresh
          (update_spec_of api cal R config config.partition_spec_update_mode []) Held-refresh
          (update_spec_of-Ensures config config.partition_spec_update_mode []))
        (λ t held done. (held, refl))

  Ready-kept :
      (ds : Option (List (Dimension Time))) (s t : T)
      → ((row : Row) → contents.has t row ≡ contents.has s row)
        × (api.spec_api.schema t ≡ api.spec_api.schema s)
      → Ready ds s
      → Ready ds t
  Ready-kept ds s t (rows_kept, schema_kept) (held, typed) =
      (λ row. rows_kept row ∙ held row, rw schema_kept typed)

  update_properties_of-Ensures :
      (properties : Option Props.Properties) (ds : Option (List (Dimension Time)))
      → Ensures (Ready ds) (update_properties_of api R properties) (Ready ds)
  unfolding update_properties_of
  update_properties_of-Ensures none ds t ready done = ready
  update_properties_of-Ensures (some properties) ds t ready done =
      update_table_properties_inv api.properties_api retrying (Ready ds)
        (λ removed set s. Ready-kept ds s _ (law.properties_kept removed set s))
        (λ s. Ready-kept ds s _ (law.properties_refreshed s)) (api.properties_api.properties t)
        properties t ready

  update_existing-Ensures :
      (config : Config) (ds : Option (List (Dimension Time))) (names : List String)
      → Ensures Held (update_existing api cal R config ds names) (Ready ds)
  unfolding update_existing
  update_existing-Ensures config ds names t =
      let first = update_table_schema api.schema_api R config.schema_update_mode names in
      let second = update_spec_if api cal R config ds (not (is_empty (api.spec_api.spec t))) in
      then-Ensures Held (Ready ds) (Ready ds) (first >> second)
        (update_properties_of api R config.table_properties)
        (then-Ensures Held Held (Ready ds) first second
          (λ s held done.
            update_table_schema_inv api.schema_api retrying Held
              (λ us u held row. law.columns_kept us u row ∙ held row)
              (λ u held row. law.columns_refreshed u row ∙ held row) config.schema_update_mode names
              s held)
          (update_spec_if-Ensures config ds (not (is_empty (api.spec_api.spec t)))))
        (update_properties_of-Ensures config.table_properties ds) t

  -- Where there was no row, a table that is made has the rows that there were.
  module _ (empty : (row : Row) → had row ≡ false) where
    create-Attempt :
        (names : List String) (properties : Props.Properties) (t : T)
        → Held t
        → Attempt
            (api.create names properties)
            skip
            is_create_conflict
            Held
            Held
            (api.create names properties t)
    create-Attempt names properties t held = go (api.create names properties t) refl
      where
        go :
            (r : Option Error × T)
            → api.create names properties t ≡ r
            → Attempt (api.create names properties) skip is_create_conflict Held Held r
        go (none, s) e = λ row.
            let after_none = law.created names properties t row (ap (λ r. r.0) e) in
            let none_before = empty row in ground arith
        go (some x, s) e = λ row.
            let as_before = law.not_created names properties t row x (ap (λ r. r.0) e) in
            let before = held row in ground arith

    create_new-Ensures :
        (config : Config) (ds : Option (List (Dimension Time))) (names : List String)
        → Ensures Held (create_new api cal R config ds names) (Ready ds)
    unfolding create_new create_table check_types
    create_new-Ensures config ds names = go ds
      where
        properties : Props.Properties
        properties = or_nothing config.table_properties

        made : Ensures Held (create_table api R names properties) Held
        made =
            then-Ensures Held Held Held
              (execute (api.create names properties) skip R 3 is_create_conflict) api.load_table
              (execute-Ensures (api.create names properties) skip is_create_conflict Held Held
                retrying 3 (create-Attempt names properties) (λ s held. held))
              (λ s held done row. law.loaded s row ∙ held row)

        go :
            (ds : Option (List (Dimension Time)))
            → Ensures Held (create_new api cal R config ds names) (Ready ds)
        go none =
            then-Ensures Held Held (Ready none) (create_table api R names properties) skip made
              (λ s held done. (held, refl))
        go (some ds) =
            then-Ensures Held Held (Ready (some ds)) (create_table api R names properties)
              (update_spec_of api cal R config "update" ds) made
              (update_spec_of-Ensures config "update" ds)

  -- After the table's making or updating, by what its first load gave.
  existing_or-Ensures :
      (config : Config) (ds : Option (List (Dimension Time))) (names : List String)
      (r : Option Error × T)
      → Held r.1
      → (r.0 ≡ some no_such_table → (row : Row) → had row ≡ false)
      → let s =
          existing_or
            (api.load_table >> update_existing api cal R config ds names)
            (create_new api cal R config ds names)
            r in
        s.0 ≡ none → Ready ds s.1
  existing_or-Ensures config ds names (none, t) held absent =
      then-Ensures Held Held (Ready ds) api.load_table (update_existing api cal R config ds names)
        (λ s h done row. law.loaded s row ∙ h row) (update_existing-Ensures config ds names) t held
  existing_or-Ensures config ds names (some no_such_table, t) held absent =
      create_new-Ensures (absent refl) config ds names t held
  existing_or-Ensures config ds names (some (value_error x), t) held absent = λ h. cc
  existing_or-Ensures config ds names (some not_implemented, t) held absent = λ h. cc
  existing_or-Ensures config ds names (some commit_failed, t) held absent = λ h. cc
  existing_or-Ensures config ds names (some stop_iteration, t) held absent = λ h. cc
  existing_or-Ensures config ds names (some index_error, t) held absent = λ h. cc
  existing_or-Ensures config ds names (some table_already_exists, t) held absent = λ h. cc
  existing_or-Ensures config ds names (some (other x), t) held absent = λ h. cc

  pub if_exists-Ensures :
      (config : Config) (ds : Option (List (Dimension Time))) (names : List String)
      → Ensures Held
          (if_exists api
            (api.load_table >> update_existing api cal R config ds names)
            (create_new api cal R config ds names))
          (Ready ds)
  unfolding if_exists
  if_exists-Ensures config ds names t held =
      existing_or-Ensures config ds names (api.load_table t) (λ row. law.loaded t row ∙ held row)
        (λ e row. sym (held row) ∙ law.absent t row e)
