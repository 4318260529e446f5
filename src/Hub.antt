-- ===== src/Hub.antt =====
-- connection_manager.cpp.
pub mod State
pub mod Notify
pub mod Counting
pub mod Keeping
pub mod Leaving
pub mod Completion
pub mod Runs
pub mod Leaks
pub mod Late
pub mod Tidy
pub mod Released
