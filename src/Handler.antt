-- ===== src/Handler.antt =====
-- The request handler (server_side_handler.cpp).
pub mod Tasks
pub mod Accounts
pub mod Files
pub mod Keeping
pub mod Sessions
pub mod Signing
