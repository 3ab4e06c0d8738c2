-- ===== src/Cache.antt =====
-- heap-overflow/capstone/src: the cache store, its codecs, the server and the loader.
pub mod Codecs
pub mod Types
pub mod Store
pub mod Inserts
pub mod Server
pub mod Load
pub mod Snapshots
mod Tests
