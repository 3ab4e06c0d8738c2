-- ===== src/Memory.antt =====
-- The abstract machine on which the C code runs: results with a memory fault, byte buffers with
-- their bounds, and a heap of blocks that are live or released.
pub mod Fault
pub mod Bytes
pub mod Heap
pub mod Loop
pub mod Slots
