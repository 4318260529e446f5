-- ===== src/Connection.antt =====
-- One client connection (connection.cpp): what it does with a parsed request, and how it writes.
pub mod ReadAction
pub mod Writes
pub mod Reading
