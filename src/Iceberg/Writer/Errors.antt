-- ===== src/Iceberg/Writer/Errors.antt =====
-- `table_writer`: what it raises of its own.
use community_integrations.Base.{
  ◌≡◌, ◌≢◌, refl, arith, false, String, List, [], ◌∷◌, Option, none, some, Result, ok, err,
  contains, string_eq, Bool-cases, inl, inr, subst,
}
use community_integrations.Base.Action.{Action, ◌>>◌}
use community_integrations.Base.Action.Hoare.{Ensures, then-Ensures}
use community_integrations.Base.Members.{In}
use community_integrations.Iceberg.Error.{Error, value_error, missing_field}
use community_integrations.Iceberg.Retry.{Retrying}
use community_integrations.Iceberg.Window.{Calendar}
use community_integrations.Iceberg.Partitions.{Dimension}
use community_integrations.Iceberg.Predicates.{Clock, Casts}
use community_integrations.Iceberg.Writer.{
  Config, Catalog, RowFilter, upsert_mode, or_no_dimensions, update_existing, create_new, if_exists,
  write, write_filtered, filter_and_write, row_filter, SliceDimension, dimensions_of, table_writer,
  write_slice, checked, check_columns,
}

check_columns_missing :
    {Time : Type 0} (names : List String) (ds : List (Dimension Time)) (d : Dimension Time)
    → In d ds
    → contains names d.partition_expr ≡ false
    → (k : String) × (contains names k ≡ false)
      × (check_columns names ds ≡ some (value_error (missing_field k)))
unfolding check_columns
check_columns_missing names [] d i h = absurd i
check_columns_missing names (c ∷ ds) d (inl e) h =
    let missing : contains names c.partition_expr ≡ false = ground arith in
    (c.partition_expr, missing, ground arith)
check_columns_missing names (c ∷ ds) d (inr i) h =
    elim (Bool-cases (contains names c.partition_expr)) [
      | inl there ↦
          let (k, absent, raised) = check_columns_missing names ds d i h in
          (k, absent, ground arith)
      | inr absent ↦ (c.partition_expr, absent, ground arith)
    ]

module _ {T D Time Day : Type 0} (api : Catalog T D) (cal : Calendar Time) (clock : Clock Time Day)
    (casts : Casts Time) (R : Retrying Error T) where
  -- Where the column of some dimension is not one of the data, a run raises the error that names such
  -- a column, and has done nothing.
  pub table_writer_missing :
      (config : Config) (slice : List (SliceDimension Time)) (data_in : D) (t : T)
      (ds : List (Dimension Time)) (d : Dimension Time)
      → dimensions_of slice ≡ ok (some ds)
      → In d ds
      → contains (api.columns data_in) d.partition_expr ≡ false
      → (k : String) × (contains (api.columns data_in) k ≡ false)
        × (table_writer api cal clock casts R config slice data_in t
            ≡ (some (value_error (missing_field k)), t))
  unfolding table_writer
  table_writer_missing config slice data_in t ds d given i h =
      let (k, absent, raised) = check_columns_missing (api.columns data_in) ds d i h in
      (k, absent, rw given (rw raised refl))

  abbrev Never : T → Type 0
  Never t = ⊥

  abbrev Any : T → Type 0
  Any t = Unit

  module _ (config : Config) (mode : config.write_mode ≡ upsert_mode)
      (unset : config.upsert_options ≡ none) (d : D) where
    write_filtered-Never :
        (f : Result Error RowFilter) → Ensures Any (write_filtered api R config d f) Never
    unfolding write
    write_filtered-Never (err e) t h done = cc
    write_filtered-Never (ok f) t h done =
        let raised : (write api R config d f upsert_mode none t).0 ≡ none =
          subst (λ o. (write api R config d f upsert_mode o t).0 ≡ none) unset
            (subst (λ m. (write api R config d f m config.upsert_options t).0 ≡ none) mode done) in
        cc

    write_slice-Never :
        (ds : Result Error (Option (List (Dimension Time)))) (t : T)
        → (write_slice api cal clock casts R config d ds t).0 ≢ none
    unfolding filter_and_write
    write_slice-Never (err e) t = λ done. cc
    write_slice-Never (ok ds) t = go (check_columns (api.columns d) (or_no_dimensions ds))
      where
        prepare : Action Error T
        prepare =
            if_exists api (api.load_table >> update_existing api cal R config ds (api.columns d))
              (create_new api cal R config ds (api.columns d))

        go :
            (o : Option Error)
            → (checked o (prepare >> filter_and_write api clock casts R config d ds) t).0 ≢ none
        go (some e) = λ done. cc
        go none =
            then-Ensures Any Any Never prepare (filter_and_write api clock casts R config d ds)
              (λ s u done. tt) (λ s. write_filtered-Never (row_filter api clock casts ds s) s) t tt

    -- In the mode "upsert" without options a run always raises, whatever the table, the slice and
    -- the data.
    pub table_writer_no_options :
        (slice : List (SliceDimension Time)) (t : T)
        → (table_writer api cal clock casts R config slice d t).0 ≢ none
    unfolding table_writer
    table_writer_no_options slice t = write_slice-Never (dimensions_of slice) t
