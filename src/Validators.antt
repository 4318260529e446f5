-- ===== src/Validators.antt =====
-- The checks that a request passes before it is served, and the code that confirms it
-- (basic_validator.cpp, transition_validator.cpp, semantic_validator.cpp, confirmator.cpp). A check
-- returns a response code, or `none` where the source returns nullptr.
pub mod Basic
pub mod Transition
pub mod Semantic
pub mod Confirmator
