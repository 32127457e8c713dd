-- ===== src/Sornet.antt =====
-- The sorting network of the solver, `bj_manageru/cnf_preload/preload_sornet.cpp`.
pub mod Build
pub mod Play
pub mod Values
pub mod Bitonic
pub mod Cleaners
pub mod Sorts
pub mod Firing
pub mod Made
pub mod Chains
pub mod Node
pub mod Pairs
pub mod Nets
pub mod Sorter
pub mod Counts
pub mod Pow2
pub mod Create
pub mod Ends
pub mod Whole
pub mod Tests
