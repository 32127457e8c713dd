-- ===== src/Rows.antt =====
-- The rows of the utilities of the solver, and their heap.
pub mod Heap
pub mod Tally
pub mod Sift
pub mod Sorting
pub mod Sorted
pub mod Selec
pub mod Insert
pub mod Tests
