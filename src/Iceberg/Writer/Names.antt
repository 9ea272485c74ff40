-- ===== src/Iceberg/Writer/Names.antt =====
-- `table_writer`: the columns that it leaves.
use community_integrations.Base.{
  ◌≡◌, refl, not, Bool, String, List, Option, none, some, Result, ok, err, ◌||◌, contains,
  string_eq, Bool-cases, inl, inr, if◌then◌else◌,
}
use community_integrations.Base.Action.{Action, skip, ◌>>◌}
use community_integrations.Base.Action.Hoare.{Ensures, then-Ensures, if-Ensures}
use community_integrations.Base.Lists.{is_empty}
use community_integrations.Iceberg.Error.{
  Error, is_no_such_table, is_create_conflict, is_commit_failed,
}
use community_integrations.Iceberg.Retry.{Retrying, IsRetrying, execute}
use community_integrations.Iceberg.Retry.Laws.{execute_post, execute_inv}
use community_integrations.Iceberg.Window.{Calendar}
use community_integrations.Iceberg.Partitions.{Dimension}
use community_integrations.Iceberg.Partitions.Typed.{update_table_partition_spec_inv}
use community_integrations.Iceberg.Partitions.Updater as Spec
use community_integrations.Iceberg.Predicates.{Clock, Casts}
use community_integrations.Iceberg.Properties as Props
use community_integrations.Iceberg.Properties.Laws.{update_table_properties_inv}
use community_integrations.Iceberg.Schema as Columns
use community_integrations.Iceberg.Schema.Laws.{update_table_schema_names}
use community_integrations.Iceberg.Writer.{
  append_to_table, overwrite_table, upsert_to_table, or_nothing, Config, Catalog, RowFilter,
  UpsertOptions, WriteMode, append_mode, overwrite_mode, upsert_mode, or_no_dimensions, is_given,
  update_spec_of, update_spec_if, update_properties_of, update_existing, create_table, create_new,
  existing_or, if_exists, write, write_filtered, filter_and_write, row_filter, snapshot_properties,
  SliceDimension, dimensions_of, table_writer, write_slice, checked, check_columns,
}

-- What pyiceberg documents of the columns: a table is made with those that it is given, an update of
-- them is carried out, and no other call changes them, where nobody else does.
pub record KeepsNames {T D : Type 0} (api : Catalog T D) : Type 0 where
  pub schema_law : Columns.IsTables api.schema_api
  pub created :
      (names : List String) (properties : Props.Properties) (t : T)
      → (api.create names properties t).0 ≡ none
      → api.schema_api.names (api.create names properties t).1 ≡ names
  pub loaded : (t : T) → api.schema_api.names (api.load_table t).1 ≡ api.schema_api.names t
  pub spec_kept :
      (r : Spec.Recorded) (t : T)
      → api.schema_api.names (api.spec_api.commit r t).1 ≡ api.schema_api.names t
  pub refreshed : (t : T) → api.schema_api.names (api.spec_api.refresh t).1 ≡ api.schema_api.names t
  pub properties_kept :
      (removed : List String) (set : Props.Properties) (t : T)
      → api.schema_api.names (api.properties_api.commit removed set t).1 ≡ api.schema_api.names t
  pub properties_refreshed :
      (t : T) → api.schema_api.names (api.properties_api.refresh t).1 ≡ api.schema_api.names t
  pub appended :
      (d : D) (properties : Props.Properties) (t : T)
      → api.schema_api.names (api.append d properties t).1 ≡ api.schema_api.names t
  pub overwritten :
      (d : D) (f : RowFilter) (properties : Props.Properties) (t : T)
      → api.schema_api.names (api.overwrite d f properties t).1 ≡ api.schema_api.names t
  pub upserted :
      (d : D) (options : UpsertOptions) (t : T)
      → api.schema_api.names (api.upsert d options t).1 ≡ api.schema_api.names t

module _ {T D Time : Type 0} {api : Catalog T D} (law : KeepsNames api) (names : List String)
    (cal : Calendar Time) {R : Retrying Error T} (retrying : IsRetrying R) where
  abbrev pub HasNames : T → Type 0
  HasNames t = (a : String) → contains (api.schema_api.names t) a ≡ contains names a

  abbrev Any : T → Type 0
  Any t = Unit

  kept : (s t : T) → api.schema_api.names t ≡ api.schema_api.names s → HasNames s → HasNames t
  kept s t same h a = rw same (h a)

  update_spec_of-HasNames :
      (config : Config) (mode : String) (ds : List (Dimension Time))
      → Ensures HasNames (update_spec_of api cal R config mode ds) HasNames
  update_spec_of-HasNames config mode ds t h done =
      update_table_partition_spec_inv cal api.spec_api retrying HasNames
        (λ r s. kept s _ (law.spec_kept r s)) (λ s. kept s _ (law.refreshed s)) ds mode
        config.partition_field_name_prefix t h

  update_spec_if-HasNames :
      (config : Config) (ds : Option (List (Dimension Time))) (has_spec : Bool)
      → Ensures HasNames (update_spec_if api cal R config ds has_spec) HasNames
  unfolding update_spec_if
  update_spec_if-HasNames config ds has_spec =
      let update =
        update_spec_of api cal R config config.partition_spec_update_mode (or_no_dimensions ds) in
      if-Ensures HasNames HasNames (is_given ds || has_spec) (api.spec_api.refresh >> update) skip
        (then-Ensures HasNames HasNames HasNames api.spec_api.refresh update
          (λ s h done. kept s _ (law.refreshed s) h)
          (update_spec_of-HasNames config config.partition_spec_update_mode (or_no_dimensions ds)))
        (λ s h done. h)

  update_properties_of-HasNames :
      (properties : Option Props.Properties)
      → Ensures HasNames (update_properties_of api R properties) HasNames
  unfolding update_properties_of
  update_properties_of-HasNames none t h done = h
  update_properties_of-HasNames (some properties) t h done =
      update_table_properties_inv api.properties_api retrying HasNames
        (λ removed set s. kept s _ (law.properties_kept removed set s))
        (λ s. kept s _ (law.properties_refreshed s)) (api.properties_api.properties t) properties t
        h

  update_existing-HasNames :
      (config : Config) (ds : Option (List (Dimension Time)))
      → Ensures Any (update_existing api cal R config ds names) HasNames
  unfolding update_existing
  update_existing-HasNames config ds t =
      let first = Columns.update_table_schema api.schema_api R config.schema_update_mode names in
      let second = update_spec_if api cal R config ds (not (is_empty (api.spec_api.spec t))) in
      then-Ensures Any HasNames HasNames (first >> second)
        (update_properties_of api R config.table_properties)
        (then-Ensures Any HasNames HasNames first second
          (λ s u done.
            update_table_schema_names law.schema_law retrying config.schema_update_mode names s
              done)
          (update_spec_if-HasNames config ds (not (is_empty (api.spec_api.spec t)))))
        (update_properties_of-HasNames config.table_properties) t

  create_new-HasNames :
      (config : Config) (ds : Option (List (Dimension Time)))
      → Ensures Any (create_new api cal R config ds names) HasNames
  unfolding create_new create_table
  create_new-HasNames config ds =
      let properties = or_nothing config.table_properties in
      let update = update_spec_of api cal R config "update" (or_no_dimensions ds) in
      then-Ensures Any HasNames HasNames (create_table api R names properties)
        (if is_given ds then update else skip)
        (then-Ensures Any HasNames HasNames
          (execute (api.create names properties) skip R 3 is_create_conflict) api.load_table
          (λ s u done.
            execute_post (api.create names properties) skip is_create_conflict HasNames retrying 3 s
              (λ v created a. rw (law.created names properties v created) refl) done)
          (λ s h done. kept s _ (law.loaded s) h))
        (if-Ensures HasNames HasNames (is_given ds) update skip
          (update_spec_of-HasNames config "update" (or_no_dimensions ds)) (λ s h done. h))

  existing_or-HasNames :
      (config : Config) (ds : Option (List (Dimension Time))) (r : Option Error × T)
      → let s =
          existing_or
            (api.load_table >> update_existing api cal R config ds names)
            (create_new api cal R config ds names)
            r in
        s.0 ≡ none → HasNames s.1
  existing_or-HasNames config ds (none, t) =
      then-Ensures Any Any HasNames api.load_table (update_existing api cal R config ds names)
        (λ s u done. tt) (update_existing-HasNames config ds) t tt
  existing_or-HasNames config ds (some e, t) = elim (Bool-cases (is_no_such_table e)) [
    | inl missing ↦ rw missing (create_new-HasNames config ds t tt)
    | inr another ↦ rw another (λ h. cc)
  ]

  write-HasNames :
      (config : Config) (d : D) (f : RowFilter) (mode : WriteMode) (options : Option UpsertOptions)
      → Ensures HasNames (write api R config d f mode options) HasNames
  unfolding write append_to_table overwrite_table upsert_to_table
  write-HasNames config d f append_mode options t h done =
      execute_inv (api.append d (snapshot_properties config)) api.spec_api.refresh is_commit_failed
        HasNames (λ s. kept s _ (law.appended d (snapshot_properties config) s))
        (λ s. kept s _ (law.refreshed s)) retrying 3 t h
  write-HasNames config d f overwrite_mode options t h done =
      execute_inv (api.overwrite d f (snapshot_properties config)) api.spec_api.refresh
        is_commit_failed HasNames
        (λ s. kept s _ (law.overwritten d f (snapshot_properties config) s))
        (λ s. kept s _ (law.refreshed s)) retrying 3 t h
  write-HasNames config d f upsert_mode none t h done = cc
  write-HasNames config d f upsert_mode (some options) t h done =
      execute_inv (api.upsert d options) api.spec_api.refresh is_commit_failed HasNames
        (λ s. kept s _ (law.upserted d options s)) (λ s. kept s _ (law.refreshed s)) retrying 3 t h

module _ {T D Time Day : Type 0} {api : Catalog T D} (law : KeepsNames api) (cal : Calendar Time)
    {R : Retrying Error T} (retrying : IsRetrying R) (clock : Clock Time Day)
    (casts : Casts Time) where
  write_filtered-HasNames :
      (config : Config) (d : D) (f : Result Error RowFilter)
      → let Named = HasNames law (api.columns d) cal retrying in
        Ensures Named (write_filtered api R config d f) Named
  write_filtered-HasNames config d (err e) t h done = cc
  write_filtered-HasNames config d (ok f) t h done =
      write-HasNames law (api.columns d) cal retrying config d f config.write_mode
        config.upsert_options t h done

  write_slice-HasNames :
      (config : Config) (d : D) (ds : Result Error (Option (List (Dimension Time)))) (t : T)
      → (write_slice api cal clock casts R config d ds t).0 ≡ none
      → HasNames law
          (api.columns d)
          cal
          retrying
          (write_slice api cal clock casts R config d ds t).1
  unfolding if_exists filter_and_write
  write_slice-HasNames config d (err e) t = λ done. cc
  write_slice-HasNames config d (ok ds) t = go (check_columns (api.columns d) (or_no_dimensions ds))
    where
      run : Action Error T
      run =
          if_exists api (api.load_table >> update_existing api cal R config ds (api.columns d))
            (create_new api cal R config ds (api.columns d))
          >> filter_and_write api clock casts R config d ds

      go :
          (o : Option Error)
          → (checked o run t).0 ≡ none
          → HasNames law (api.columns d) cal retrying (checked o run t).1
      go (some e) done = cc
      go none done =
          let Named = HasNames law (api.columns d) cal retrying in
          then-Ensures (λ s. Unit {0}) Named Named
            (if_exists api (api.load_table >> update_existing api cal R config ds (api.columns d))
              (create_new api cal R config ds (api.columns d)))
            (filter_and_write api clock casts R config d ds)
            (λ s u.
              existing_or-HasNames law (api.columns d) cal retrying config ds (api.load_table s))
            (λ s. write_filtered-HasNames config d (row_filter api clock casts ds s) s) t tt done

  -- A run that raises nothing, in whichever modes, leaves a table with exactly the columns of the data,
  -- whether it was there before or not.
  pub table_writer_names :
      (config : Config) (slice : List (SliceDimension Time)) (d : D) (t : T)
      → (table_writer api cal clock casts R config slice d t).0 ≡ none
      → (a : String)
      → contains (api.schema_api.names (table_writer api cal clock casts R config slice d t).1) a
        ≡ contains (api.columns d) a
  unfolding table_writer
  table_writer_names config slice d t = write_slice-HasNames config d (dimensions_of slice) t
