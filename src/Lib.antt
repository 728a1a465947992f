-- ===== src/Lib.antt =====
-- TouchHouse: a column-oriented database server. A client sends a statement in a frame over TCP
-- (src/tcp_io_parser.rs); src/sql plans it (logical plan, physical plan) and carries it out on the
-- tables, whose parts src/storage writes to and reads from files, granule by granule, sorted by an
-- engine of src/engines; a thread merges parts in the background (src/background_merge.rs).
--
-- Files, and the code that they follow (paths from the repository's root):
--   Prelude, Outcome   shared names, lists and numbers; src/error.rs: `Error`, and `Result`, in which
--                      `panics` is a panic and `hangs` a loop that is still running
--   Externs            what the code takes from the crates uuid, rkyv, lz4, crc32fast and from the
--                      floats, the unstable sort and the paths of the standard library, as parameters
--   Value, BinOp       src/storage/value.rs: values, `partial_cmp`, `==`, `hash`, the archived form,
--                      literals, texts
--   Storage            src/storage/{column,compression,table_def,table_metadata,table_part}.rs and
--                      src/storage/tables: columns, parts and their files, the files of
--                      metadata (Storage/Files), `NativeStorage` and
--                      `VirtualStorage` under the record `StorageRead`
--   Sql                src/sql/{sql_parser,compiled_filter,mod}.rs and src/sql/logical_plan: the tree
--                      that sqlparser hands over (Ast, Query), the plans, the filter of a WHERE;
--                      src/sql/plan_optimization/query_flattening.rs (Flatten)
--   Engines            src/engines: MergeTree and ReplacingMergeTree, with
--                      `apply_permutation_in_place` and a sort by insertion, which is stable, as
--                      `sort_by` is, and is one of the outcomes of `sort_unstable_by` by a total order
--   Execution          src/sql/execution, src/sql/command_runner.rs, src/background_merge.rs: the
--                      aggregator, the scan, the commands on the state `Db` and on the folders that there
--                      are (Folders), the merge of two parts
--   Config             src/config.rs: the configuration, read at the start
--   Tcp                src/tcp_io_parser.rs: the frames
--   Startup            src/lib.rs: `load_existing_parts`
--   Server             src/lib.rs, src/main.rs: `handle_connection`, and the permits of `accept_conn` as
--                      a step relation
--   Tests              runs at concrete inputs; those of the filter and of CREATE TABLE are in
--                      Sql/Filter/Tests and Sql/CreateTable/Tests
-- A module below one of these is named for what it shows (Engines/Sort/Sorted, Sql/Insert/Columns).
--
-- Numbers are native; a float is its bit pattern, an UUID its 128 bits. The cycle walk of
-- `apply_permutation_in_place` has as many rounds as the column has entries, since each marks one. The
-- loop over granules has one round for each row. The scan takes its rounds as fuel, as a scan of a
-- subquery need not end; for a table one round more than there are marks is enough. The sort, the walk
-- of a list of folders and the passes over a plan are structural.
--
-- Not modelled: the file system but for the folders and files by path that a part of the program reads
-- or makes, locks, networking, logging, the texts of errors, and MessagePack. A hash map is a list in
-- the order of insertion.
mod Prelude
pub mod Outcome
pub mod Externs
pub mod BinOp
pub mod Value
pub mod Storage
pub mod Sql
pub mod Engines
pub mod Execution
pub mod Config
pub mod Server
pub mod Startup
pub mod Tcp
pub mod Tests
