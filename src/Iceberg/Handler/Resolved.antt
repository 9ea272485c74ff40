-- ===== src/Iceberg/Handler/Resolved.antt =====
-- What a handler resolves from the metadata and the configuration, and what it does with it.
use community_integrations.Base.{
  ◌≡◌, ◌⊎◌, inl, inr, refl, subst, String, List, [], Option, none, some, string_eq, Result, ok, err,
}
use community_integrations.Base.Action.{◌>>◌}
use community_integrations.Base.Dict.{Dict}
use community_integrations.Iceberg.Error.{Error}
use community_integrations.Iceberg.Predicates.{Clock, Casts}
use community_integrations.Iceberg.Properties.{Properties}
use community_integrations.Iceberg.Retry.{Retrying}
use community_integrations.Iceberg.Window.{Calendar}
use community_integrations.Iceberg.Writer.{
  Config, Catalog, SliceDimension, UpsertOptions, WriteMode, append_mode, overwrite_mode,
  upsert_mode, table_writer,
}
use community_integrations.Iceberg.Handler.Laws.{result_cases}
use community_integrations.Iceberg.Handler.{
  OutputContext, get_or, get_upsert_options, writer_config, handle_output,
}
use community_integrations.Iceberg.Handler.Chosen.{
  IsOr, IsPrefix, IsChosen, get_or-IsOr, prefix_cases, IsChosen-cases,
}

module _ {V : Type 0} (model_dump : UpsertOptions → Dict String V)
    (model_validate : Dict String V → Result Error UpsertOptions) where
  abbrev pub options_of : OutputContext V → WriteMode → Result Error (Option UpsertOptions)
  options_of context =
      get_upsert_options model_dump model_validate context.definition_metadata.upsert_options
        context.output_metadata.upsert_options

  -- No options but in the mode "upsert".
  abbrev pub IsOptions : OutputContext V → WriteMode → Option UpsertOptions → Type 0
  IsOptions context append_mode options = options ≡ none
  IsOptions context overwrite_mode options = options ≡ none
  IsOptions context upsert_mode options = options_of context upsert_mode ≡ ok options

  IsOptions-cases :
      (context : OutputContext V) (mode : WriteMode)
      → ((options : Option UpsertOptions) × (options_of context mode ≡ ok options)
          × IsOptions context mode options)
        ⊎ ((e : Error) × (options_of context mode ≡ err e) × (mode ≡ upsert_mode))
  unfolding get_upsert_options
  IsOptions-cases context append_mode = inl (none, refl, refl)
  IsOptions-cases context overwrite_mode = inl (none, refl, refl)
  IsOptions-cases context upsert_mode = elim (result_cases (options_of context upsert_mode)) [
    | inl (options, read) ↦ inl (options, read, read)
    | inr (e, raised) ↦ inr (e, raised, refl)
  ]

  -- What is handed to `table_writer` for a context.
  abbrev pub IsResolved : OutputContext V → Config → Type 0
  IsResolved context config =
      let definition = context.definition_metadata in
      IsPrefix context.resource_config definition.partition_field_name_prefix
        config.partition_field_name_prefix
      × IsChosen definition.write_mode context.output_metadata.write_mode config.write_mode
      × IsOptions context config.write_mode config.upsert_options
      × IsOr "error" definition.schema_update_mode config.schema_update_mode
      × IsOr "error" definition.partition_spec_update_mode config.partition_spec_update_mode
      × ((properties : Properties) × (config.table_properties ≡ some properties)
          × IsOr [] definition.table_properties properties)
      × (config.dagster_run_id ≡ context.run_id)
      × (config.dagster_partition_key ≡ context.partition_key)

  -- Why nothing is handed to it: there is no prefix, no mode, or no options for the mode.
  abbrev pub IsRefused : OutputContext V → Error → Type 0
  IsRefused context e =
      let definition = context.definition_metadata in
      ((prefix : String)
        → ¬ IsPrefix context.resource_config definition.partition_field_name_prefix prefix)
      ⊎ ((mode : WriteMode)
          → ¬ IsChosen definition.write_mode context.output_metadata.write_mode mode)
      ⊎ (IsChosen definition.write_mode context.output_metadata.write_mode upsert_mode
          × (options_of context upsert_mode ≡ err e))

  module _ (pyiceberg_version dagster_iceberg_version : String) (context : OutputContext V) where
    abbrev resolved : Result Error Config
    resolved =
        writer_config model_dump model_validate pyiceberg_version dagster_iceberg_version context

    resolved_cases :
        ((config : Config) × (resolved ≡ ok config) × IsResolved context config)
        ⊎ ((e : Error) × (resolved ≡ err e) × IsRefused context e)
    unfolding writer_config
    resolved_cases =
        let definition = context.definition_metadata in
        elim (prefix_cases context.resource_config definition.partition_field_name_prefix) [
          | inr (e, raised, never) ↦ inr (e, rw raised refl, inl never)
          | inl (prefix, found, is_prefix) ↦
              elim (IsChosen-cases definition.write_mode context.output_metadata.write_mode) [
                | inr (e, raised, never) ↦ inr (e, rw (found, raised) refl, inr (inl never))
                | inl (mode, chosen, is_mode) ↦ elim (IsOptions-cases context mode) [
                  | inr (e, raised, upsert) ↦ inr (
                    e,
                    rw (found, chosen, raised) refl,
                    inr (
                        inr (
                          subst
                            (λ m.
                              IsChosen definition.write_mode context.output_metadata.write_mode m
                              × (options_of context m ≡ err e))
                            upsert (is_mode, raised))),
                  )
                  | inl (options, read, is_options) ↦ inl (
                    record {
                      schema_update_mode = get_or "error" definition.schema_update_mode;
                      partition_spec_update_mode =
                          get_or "error" definition.partition_spec_update_mode;
                      dagster_run_id = context.run_id;
                      partition_field_name_prefix = prefix;
                      dagster_partition_key = context.partition_key;
                      table_properties = some (get_or [] definition.table_properties);
                      write_mode = mode;
                      upsert_options = options;
                      pyiceberg_version = pyiceberg_version;
                      dagster_iceberg_version = dagster_iceberg_version;
                    },
                    rw (found, chosen, read) refl,
                    (
                      is_prefix,
                      is_mode,
                      is_options,
                      get_or-IsOr "error" definition.schema_update_mode,
                      get_or-IsOr "error" definition.partition_spec_update_mode,
                      (
                        get_or [] definition.table_properties,
                        refl,
                        get_or-IsOr [] definition.table_properties,
                      ),
                      refl,
                      refl,
                    ),
                  )
                ]
              ]
        ]

    module _ {T D Time Day : Type 0} (api : Catalog T D) (cal : Calendar Time)
        (clock : Clock Time Day) (casts : Casts Time) (R : Retrying Error T) where
      -- Either the metadata and the configuration give a prefix, a mode (the output's before the
      -- definition's) and, in the mode "upsert", options: then `table_writer` runs with these, with the
      -- update modes of the definition or "error", with the definition's properties or none of them, and
      -- the table is loaded if that raised nothing. Or they do not, and the handler raises before it has
      -- touched the table.
      pub handle_output-IsResolved :
          (slice : List (SliceDimension Time)) (d : D) (t : T)
          → let run =
              handle_output api cal clock casts R model_dump model_validate pyiceberg_version
                dagster_iceberg_version context slice d t in
            ((config : Config) × IsResolved context config
              × (run ≡ (table_writer api cal clock casts R config slice d >> api.load_table) t))
            ⊎ ((e : Error) × IsRefused context e × (run ≡ (some e, t)))
      unfolding handle_output
      handle_output-IsResolved slice d t = elim resolved_cases [
        | inl (config, made, is_resolved) ↦ inl (config, is_resolved, rw made refl)
        | inr (e, raised, is_refused) ↦ inr (e, is_refused, rw raised refl)
      ]
