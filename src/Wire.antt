-- ===== src/Wire.antt =====
-- What the servers and the replay tools share: the gathering of bytes from a connection, the request
-- format, and the loops over requests.
pub mod Read
pub mod Request
pub mod Serve
pub mod Ends
pub mod Replay
mod Tests
