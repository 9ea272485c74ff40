-- ===== src/Iceberg.antt =====
-- The dagster-iceberg library: keeping an Iceberg table's schema, properties and partition spec in
-- step with an asset (libraries/dagster-iceberg/src/dagster_iceberg).
pub mod Error
pub mod Retry
pub mod Schema
pub mod Properties
pub mod Window
pub mod Partitions
pub mod Predicates
pub mod Writer
pub mod Handler
