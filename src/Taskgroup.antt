-- ===== src/Taskgroup.antt =====
-- pkg/taskgroup: the terminal rows of running tasks.
pub mod Utf8
pub mod LineFilter
pub mod Collection
pub mod Group
pub mod Map
pub mod LineWriter
mod Samples
