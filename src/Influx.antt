-- ===== src/Influx.antt =====
-- internal/influx/client.go: the client of the source database.
pub mod Oldest
pub mod Paging
pub mod Schema
pub mod Rows
mod Runs
