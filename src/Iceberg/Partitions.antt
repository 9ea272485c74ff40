-- ===== src/Iceberg/Partitions.antt =====
-- _utils/partitions.py: the data that it works on.
pub mod Mapper
pub mod Updater
pub mod Changes
pub mod Dimensions
pub mod Record
pub mod Sync
pub mod Causes
pub mod Commit
pub mod Update
pub mod Typed
pub mod Model
mod Tests
use community_integrations.Base.{
  ℕ, ◌≡◌, Bool, true, false, String, List, [], ◌∷◌, Option, none, some, ◌==◌, Eq, nat_eq, string_eq,
}
use community_integrations.Base.Lists.{find}
use community_integrations.Iceberg.Window.{Transform}

-- pyiceberg's column types; `other_type` stands for those that the code rejects.
pub data ColumnType : Type 0 where
  timestamp date string : ColumnType
  other_type : String → ColumnType

-- `isinstance(t, time_partition_dt_types)`
abbrev pub is_time_type : ColumnType → Bool
is_time_type timestamp = true
is_time_type date = true
is_time_type _ = false

-- `isinstance(t, partition_types)`
abbrev pub is_text_type : ColumnType → Bool
is_text_type string = true
is_text_type _ = false

pub record Column : Type 0 where
  pub field_id : ℕ
  pub name : String
  pub field_type : ColumnType

-- A pyiceberg schema: its top-level columns, and its lookup by name, which raises a `ValueError`
-- where there is no such column.
pub record Schema : Type 0 where
  pub fields : List Column
  pub find_field : String → Option Column

pub record PartitionField : Type 0 where
  pub source_id : ℕ
  pub name : String
  pub transform : Transform

-- The partitions of a dimension: a time window, keys, or what the code rejects.
pub data Partitions (Time : Type 0) : Type 0 where
  time_window : Time → Time → Partitions Time
  keys : List String → Partitions Time
  other_partitions : Partitions Time

pub record Dimension (Time : Type 0) : Type 0 where
  pub partition_expr : String
  pub partitions : Partitions Time

abbrev pub column_by_id : List Column → ℕ → Option Column
column_by_id columns i = find (λ c. c.field_id == i) columns

-- What pyiceberg documents of a flat schema: names are found exactly at their columns, and an id
-- is a column's own.
pub record IsSchema (s : Schema) : Type 0 where
  pub found :
      (n : String) {c : Column}
      → s.find_field n ≡ some c
      → (column_by_id s.fields c.field_id ≡ some c) × (c.name ≡ n)
  pub finds : (i : ℕ) {c : Column} → column_by_id s.fields i ≡ some c → s.find_field c.name ≡ some c
