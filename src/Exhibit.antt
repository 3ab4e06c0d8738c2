-- ===== src/Exhibit.antt =====
-- The single-function exhibits of the four bug classes.
pub mod StackOverflow
pub mod HeapOverflow
pub mod UseAfterFree
pub mod Dangling
pub mod DoubleFree
mod Tests
