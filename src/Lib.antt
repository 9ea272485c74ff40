-- ===== src/Lib.antt =====
-- Dagster's community integrations: a library of models and proofs about the Python code of
-- libraries/. It covers three of them.
--
-- * dagster-iceberg writes assets to Iceberg tables. Before a write it brings the table's
--   columns, partition spec and properties in step with the asset, each by an operation on the
--   table that is tried again after a refresh. Files below are in
--   libraries/dagster-iceberg/src/dagster_iceberg/_utils.
--   - Iceberg/Retry: retries.py (`execute`, `attempt`). tenacity's `Retrying` is a parameter, with
--     its documented behaviour as hypotheses (`IsRetrying`); Iceberg/Retry/Model has one that
--     counts. An operation is an `Action`: the exception, if any, and the table that it leaves.
--   - Iceberg/Schema: schema.py (`update_table_schema`, six tries).
--   - Iceberg/Properties: properties.py (`update_table_properties`, three tries).
--   - Iceberg/Window: transforms.py (`diff_to_transformation`); pendulum is a parameter.
--   - Iceberg/Partitions: partitions.py. Mapper has the class PartitionMapper, Updater has
--     IcebergTableSpecUpdater and `update_table_partition_spec` (three tries for each dimension).
--     The proofs are in Changes, Dimensions, Record, Causes, Commit and Update, over the specification of
--     Sync; Model has a table in memory that satisfies the hypotheses.
--   - Iceberg/Predicates: the predicate mappers of partitions.py. Select and Made have which rows the
--     filters select, over a row and pyiceberg's evaluation of a filter as parameters (`Rows`); Sql
--     has the text of the SQL filters.
--   - Iceberg/Writer: io.py, `table_writer`. The catalog and the variable `table` are one state
--     (`Catalog`), on which the calls of pyiceberg are actions. Prepare and Overwrite have the proofs of
--     what an overwrite does to the rows, over the hypotheses of Rows; Names has the columns, and
--     Errors what the code raises of its own; Model has a catalog of one table in memory.
--   - Iceberg/Handler: handler.py beside _utils, `handle_output` up to the table that it loads, with
--     what it resolves from the metadata and the resource's configuration. pydantic's two calls are parameters.
--     Laws has the options of an upsert, Chosen and Resolved the rest.
--   A table is pyiceberg's: in each module `Tables` has what the file calls of it, and `IsTables`
--   what pyiceberg documents of a commit.
--
-- * dagster-openlineage tells an OpenLineage backend of the events in Dagster's log. Files below
--   are in libraries/dagster-openlineage/dagster_openlineage.
--   - OpenLineage/Event: the log's events, and the calls of the adapter (`Emission`).
--   - OpenLineage/Repository: compat.py and `get_repository_name` of utils.py.
--   - OpenLineage/Fetch: `get_event_log_records` of utils.py.
--   - OpenLineage/Sensor: cursor.py, and the handlers of sensor.py on the tracked runs. The adapter,
--     the instance and the making of ids are a record of functions on a world, any of which may
--     raise (`Backend`).
--   - OpenLineage/Tick: the evaluation of the sensor. The proofs are in Progress, Quiet,
--     Preserved, Planned, Steps and Cursor; Model has a backend that keeps a log.
--   - OpenLineage/Storage: storage.py, the event log storage round another one, in a `Wrapper` of the
--     other's log and the memory of planned assets. The other storage and the adapter are
--     parameters, and so is which exceptions are of the class `Exception`: the others go up. Runs has
--     what is to be planned and told; the proofs are in Laws, Step, Told and Bounds.
--   - OpenLineage/Adapter: adapter.py, the events of pipelines and steps, over the calls of
--     OpenLineage/Event.
--   - OpenLineage/Assets: adapter.py, the events of assets and of their checks, in the namespace that the
--     template of naming.py resolves; without facets.
--   - OpenLineage/Naming: naming.py, on texts as code points. The regular expressions are a scan
--     (`find_tokens`) and a fold (`collapse`). RoundTrip has parsing against the text of the segments,
--     Resolve has `_normalize`.
--   - OpenLineage/Emitter: emitter.py, `emit` and the rate of its log. The client is a parameter, and
--     so is which exceptions are of the class `Exception`.
--
-- * dagster-sharepoint works on the files of a SharePoint site through Microsoft's Graph API. It is one
--   class, in libraries/dagster-sharepoint/dagster_sharepoint/resource.py.
--   - SharePoint/Token: `access_token` and its cache, in the state of a resource; what a grant is
--     worth is a hypothesis (`IsTokens`).
--   - SharePoint/Request: `_make_request`, three attempts by recursion on their number, and
--     `_simple_upload`.
--   - SharePoint/Upload: `_upload_large_file`. The numbers of range() are made by recursion on a count,
--     for which the size of the file is enough.
--   - SharePoint/Listing: `list_folders`, `list_files`, `list_newly_created_files` and `search_files`
--     of a drive that nobody changes. The loops over pages run on a number of pages and the recursion
--     on a number of levels; the theorems of Laws and of Search say how many of each are enough.
--
-- Base has what they share: Python's `==` and `in`, dicts in insertion order, sets as lists,
-- `sorted`, code that raises, and code that changes a state and raises.
--
-- Only the listings of SharePoint run on fuel: other loops are over lists, and retries are counted.
-- Numbers do not wrap in Python. Names, times and ids are texts and natural numbers; time zones and JSON are not modelled.
--
-- Not modelled: the IO managers of dagster-iceberg, and how its handlers read inputs; the facets
-- of dagster-openlineage; what dagster-sharepoint does by a single request; every other library.
-- Logging has no effect in the models.
mod Base
pub mod Iceberg
pub mod OpenLineage
pub mod SharePoint
