-- ===== src/OpenLineage.antt =====
-- The dagster-openlineage library: what happens in Dagster's event log is told to an OpenLineage
-- backend (libraries/dagster-openlineage/dagster_openlineage).
pub mod Event
pub mod Repository
pub mod Fetch
pub mod Sensor
pub mod Tick
pub mod Storage
pub mod Naming
pub mod Adapter
pub mod Emitter
pub mod Assets
