-- ===== src/Sdk.antt =====
-- The Rust SDK of the plugins: sdk/rust/src/.
pub mod Auth
pub mod Names
pub mod Routing
