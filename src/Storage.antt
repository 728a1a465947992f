-- ===== src/Storage.antt =====
-- storage/: what a table holds and how it is read and written.
pub mod Column
pub mod Table
pub mod Part
pub mod Files
pub mod Read
pub mod Native
pub mod Virtual
