-- ===== src/Session.antt =====
-- use-after-free/capstone: Revenant, the session store, its server and its replay tool.
pub mod Types
pub mod Handlers
pub mod Store
pub mod Invariant
pub mod Writes
pub mod Safety
pub mod Uses
pub mod Opens
pub mod Closes
pub mod Batch
pub mod Outlived
pub mod Steps
pub mod Moved
pub mod Server
pub mod Connection
pub mod Replay
pub mod Cached
pub mod Ends
mod Tests
