-- ===== src/Config.antt =====
-- stack-overflow/capstone/src/cfgcore: profiles of configuration entries, their file format, and the
-- queries on them.
pub mod Types
pub mod Parse
pub mod Encode
pub mod Query
pub mod Strings
pub mod Lookups
pub mod Templates
pub mod Bounds
pub mod Service
pub mod Push
pub mod Registry
pub mod Listing
pub mod Providers
mod Tests
