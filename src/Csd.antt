-- ===== src/Csd.antt =====
-- csd_dispatcher.c: the requests of a load task with their timing in csd_ftl.c, the task lists, and the task table.
pub mod Ranges
pub mod Task
pub mod Lists
pub mod Table
pub mod Latency
pub mod Queue
mod Tests
pub mod Issue
