-- ===== src/Execution.antt =====
-- sql/execution/: how the plans are carried out.
pub mod Strategy
pub mod Aggregator
pub mod Scan
pub mod Merge
pub mod Folders
pub mod Commands
