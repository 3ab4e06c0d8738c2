-- ===== src/Spool.antt =====
-- double-free/capstone/src: Encore, the print spooler: its filters and its job store.
pub mod Filters
pub mod Types
pub mod Queue
pub mod Store
pub mod Jobs
pub mod Linked
pub mod Relinked
pub mod Order
pub mod Owned
pub mod Pump
pub mod Flush
pub mod View
pub mod Invariant
pub mod Removes
pub mod Retires
pub mod Resolves
pub mod Drains
pub mod Grows
pub mod Edits
pub mod Appends
pub mod Links
pub mod Fresh
pub mod Submits
pub mod Dups
pub mod Calls
pub mod Refines
pub mod Printed
pub mod Doubles
pub mod Consumed
pub mod Shared
pub mod TextFilter
pub mod Server
pub mod Remote
pub mod Served
pub mod Clients
pub mod Replay
mod Tests
