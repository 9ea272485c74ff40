-- ===== src/Iceberg/Error.antt =====
-- The exceptions of the dagster-iceberg code, by class; a `ValueError` with the reason it names.
use community_integrations.Base.{String, Bool, true, false, Option}

pub data Reason : Type 0 where
  -- _utils/schema.py and _utils/partitions.py, the update mode "error"
  schema_changes spec_changes : Reason
  -- `Schema.find_field`
  unknown_column : String → Reason
  no_partition_dimensions many_time_partitions unsupported_partition : Reason
  not_time_typed not_text_typed not_partitioned_by unsupported_type : String → Reason
  -- _utils/io.py
  unmapped_partition no_upsert_options : Reason
  -- handler.py
  no_resource_config unexpected_config untyped_options no_options_given : Reason
  invalid_write_mode : Option String → Reason
  missing_field : String → Reason
  -- raised by pyiceberg
  foreign : String → Reason

pub data Error : Type 0 where
  value_error : Reason → Error
  not_implemented commit_failed stop_iteration index_error : Error
  no_such_table table_already_exists : Error
  other : String → Error

abbrev pub is_value_error : Error → Bool
is_value_error (value_error r) = true
is_value_error _ = false

abbrev pub is_commit_failed : Error → Bool
is_commit_failed commit_failed = true
is_commit_failed _ = false

abbrev pub is_no_such_table : Error → Bool
is_no_such_table no_such_table = true
is_no_such_table _ = false

-- `(CommitFailedException, TableAlreadyExistsError)`
abbrev pub is_create_conflict : Error → Bool
is_create_conflict commit_failed = true
is_create_conflict table_already_exists = true
is_create_conflict _ = false
