-- ===== src/Iceberg/Writer/Overwrite.antt =====
-- `table_writer` in the mode "overwrite".
use community_integrations.Base.{
  ◌≡◌, refl, sym, subst, ◌∙◌, ap, arith, not, Bool, List, Option, none, some, Result, ok, err, ◌&&◌,
  ◌||◌,
}
use community_integrations.Base.Action.{Action, ◌>>◌}
use community_integrations.Base.Action.Hoare.{Ensures, then-Ensures}
use community_integrations.Iceberg.Error.{Error, is_commit_failed}
use community_integrations.Iceberg.Retry.{Retrying, IsRetrying}
use community_integrations.Iceberg.Retry.Hoare.{execute-Ensures, Attempt}
use community_integrations.Iceberg.Window.{Calendar}
use community_integrations.Iceberg.Partitions.{Dimension}
use community_integrations.Iceberg.Predicates.{Bound, Clock, Casts}
use community_integrations.Iceberg.Predicates.Select.{IsCasts, Rows}
use community_integrations.Iceberg.Writer.{
  overwrite_table, Config, Catalog, RowFilter, or_no_dimensions, update_existing, create_new,
  if_exists, write, write_filtered, filter_and_write, row_filter, snapshot_properties,
  overwrite_mode, SliceDimension, dimensions_of, table_writer, write_slice, checked, check_columns,
}
use community_integrations.Iceberg.Writer.Rows.{
  Holds, IsReady, Contents, IsCatalog, covers, is_in_slice, row_filter-covers,
}
use community_integrations.Iceberg.Writer.Prepare.{if_exists-Ensures}

module _ {T D Row Time Day : Type 0} {api : Catalog T D} {contents : Contents T D Row}
    {rows : Rows Row (Bound Time Day)} (law : IsCatalog api contents rows) (had : Row → Bool)
    (cal : Calendar Time) {R : Retrying Error T} (retrying : IsRetrying R) where
  abbrev Held : T → Type 0
  Held = Holds contents had

  abbrev Ready : Option (List (Dimension Time)) → T → Type 0
  Ready = IsReady api contents had

  module _ (clock : Clock Time Day) {casts : Casts Time} (casts_law : IsCasts casts)
      (reads : (b : Bound Time Day) → rows.read (clock.isoformat b) ≡ b) (config : Config)
      (mode : config.write_mode ≡ overwrite_mode) (d : D) where
    -- The rows of the slice are those of the data, and the others are those that there were.
    abbrev pub Written : Option (List (Dimension Time)) → T → Type 0
    Written ds t =
        (row : Row)
        → contents.has t row ≡ (
            contents.data_has d row
            || had row && not (is_in_slice clock rows row (api.spec_api.schema t) ds))

    overwrite-Ensures :
        (ds : Option (List (Dimension Time))) (f : RowFilter) (s : T)
        → ((row : Row) → covers rows row f ≡ is_in_slice clock rows row (api.spec_api.schema s) ds)
        → Held s
        → (write api R config d f overwrite_mode config.upsert_options s).0 ≡ none
        → Written ds (write api R config d f overwrite_mode config.upsert_options s).1
    unfolding write overwrite_table
    overwrite-Ensures ds f s filters held =
        execute-Ensures (api.overwrite d f (snapshot_properties config)) api.spec_api.refresh
          is_commit_failed Same (Written ds) retrying 3 tries kept s (held, refl)
      where
        Same : T → Type 0
        Same t = Held t × (api.spec_api.schema t ≡ api.spec_api.schema s)

        kept : (t : T) → Same t → Same (api.spec_api.refresh t).1
        kept t (h, e) = (λ row. (law.refreshed t).0 row ∙ h row, (law.refreshed t).1 ∙ e)

        tries :
            (t : T)
            → Same t
            → Attempt
                (api.overwrite d f (snapshot_properties config))
                api.spec_api.refresh
                is_commit_failed
                Same
                (Written ds)
                (api.overwrite d f (snapshot_properties config) t)
        tries t (h, e) = go (api.overwrite d f (snapshot_properties config) t) refl
          where
            go :
                (r : Option Error × T)
                → api.overwrite d f (snapshot_properties config) t ≡ r
                → Attempt
                    (api.overwrite d f (snapshot_properties config))
                    api.spec_api.refresh
                    is_commit_failed
                    Same
                    (Written ds)
                    r
            go (none, u) q = λ row.
                let after =
                  law.overwritten d f (snapshot_properties config) t row (ap (λ r. r.0) q) in
                let schema_kept = law.overwrite_schema d f (snapshot_properties config) t in
                let before = h row in let chosen = filters row in ground arith
            go (some x, u) q = (
              λ row.
                  let after =
                    law.not_overwritten d f (snapshot_properties config) t row x
                      (ap (λ r. r.0) q) in
                  let before = h row in ground arith,
              let schema_kept = law.overwrite_schema d f (snapshot_properties config) t in
                  ground arith,
            )

    filter_and_write-Ensures :
        (ds : Option (List (Dimension Time)))
        → Ensures (Ready ds) (filter_and_write api clock casts R config d ds) (Written ds)
    unfolding filter_and_write
    filter_and_write-Ensures ds s (held, typed) = go (row_filter api clock casts ds s) refl
      where
        go :
            (r : Result Error RowFilter)
            → row_filter api clock casts ds s ≡ r
            → (write_filtered api R config d r s).0 ≡ none
            → Written ds (write_filtered api R config d r s).1
        go (err e) q = λ h. cc
        go (ok f) q =
            subst
              (λ m.
                (write api R config d f m config.upsert_options s).0 ≡ none
                → Written ds (write api R config d f m config.upsert_options s).1)
              (sym mode)
              (overwrite-Ensures ds f s
                (λ row. row_filter-covers clock rows row api casts_law reads ds s f typed q) held)

    checked-Ensures :
        (o : Option Error) (next : Action Error T) (Q : T → Type 0)
        → Ensures Held next Q
        → Ensures Held (checked o next) Q
    checked-Ensures none next Q h t held done = h t held done
    checked-Ensures (some e) next Q h t held done = cc

    pub write_slice-Ensures :
        (ds : Option (List (Dimension Time)))
        → Ensures Held (write_slice api cal clock casts R config d (ok ds)) (Written ds)
    write_slice-Ensures ds =
        checked-Ensures (check_columns (api.columns d) (or_no_dimensions ds)) _ (Written ds) (
          then-Ensures Held (Ready ds) (Written ds)
            (if_exists api (api.load_table >> update_existing api cal R config ds (api.columns d))
              (create_new api cal R config ds (api.columns d)))
            (filter_and_write api clock casts R config d ds)
            (if_exists-Ensures law had cal retrying config ds (api.columns d))
            (filter_and_write-Ensures ds))

module _ {T D Row Time Day : Type 0} {api : Catalog T D} {contents : Contents T D Row}
    {rows : Rows Row (Bound Time Day)} (law : IsCatalog api contents rows) (cal : Calendar Time)
    {R : Retrying Error T} (retrying : IsRetrying R) (clock : Clock Time Day) {casts : Casts Time}
    (casts_law : IsCasts casts)
    (reads : (b : Bound Time Day) → rows.read (clock.isoformat b) ≡ b) where
  -- A run in the mode "overwrite" that raises nothing, on a table that may or may not be there and
  -- whose columns, spec and properties it may change, leaves the rows of the data, and of the rows
  -- that there were exactly those that are not in the slice: all go where the slice has no
  -- dimensions. A row is in the slice if it is in the partition of every dimension.
  pub table_writer_overwritten :
      (config : Config)
      → config.write_mode ≡ overwrite_mode
      → (slice : List (SliceDimension Time)) (d : D) (t : T)
      → (table_writer api cal clock casts R config slice d t).0 ≡ none
      → let u = (table_writer api cal clock casts R config slice d t).1 in
        (ds : Option (List (Dimension Time))) × (dimensions_of slice ≡ ok ds)
        × ((row : Row)
            → contents.has u row ≡ (
                contents.data_has d row
                || contents.has t row
                  && not (is_in_slice clock rows row (api.spec_api.schema u) ds)))
  unfolding table_writer
  table_writer_overwritten config mode slice d t = go (dimensions_of slice) refl
    where
      go :
          (r : Result Error (Option (List (Dimension Time))))
          → dimensions_of slice ≡ r
          → (write_slice api cal clock casts R config d r t).0 ≡ none
          → (ds : Option (List (Dimension Time))) × (dimensions_of slice ≡ ok ds)
            × Written law
                (contents.has t)
                cal
                retrying
                clock
                casts_law
                reads
                config
                mode
                d
                ds
                (write_slice api cal clock casts R config d r t).1
      go (err e) q h = cc
      go (ok ds) q h = (
        ds,
        q,
        write_slice-Ensures law (contents.has t) cal retrying clock casts_law reads config mode d ds
            t (λ row. refl) h,
      )
