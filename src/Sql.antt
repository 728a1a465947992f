-- ===== src/Sql.antt =====
-- sql/: from the syntax tree of a command to its plans, and their execution.
pub mod Ast
pub mod Filter
pub mod Query
pub mod Plan
pub mod Flatten
pub mod Names
pub mod Select
pub mod CreateTable
pub mod Insert
