-- ===== src/Link.antt =====
-- The parallel run of the kernels, access by access: `src/cells/cell.cpp`, `process_signal`, the
-- loop over `out_work` in `handle_missives`, `handle_work_to_workerus` and
-- `handle_work_from_manageru`. The accesses take effect in the order of the program.
pub mod Pw0
pub mod Invariant
pub mod Delivery
pub mod Manageru
pub mod Tests
