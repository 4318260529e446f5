-- ===== src/Examples.antt =====
-- Each theorem at a concrete input.
mod Samples
mod Hubs
mod Trees
mod Requests
mod Messages
mod Handlers
mod Running
mod Accounts
mod Packing
mod Worlds
mod Lifetimes
