-- ===== src/Dimacs.antt =====
-- ben-jose-embryo/bj_manageru/dimacs: what the loader of DIMACS files does with a clause.
pub mod Literals
pub mod Clauses
pub mod Seen
pub mod Fixed
pub mod Three
pub mod Short
pub mod Equivalents
pub mod Equal
pub mod Reader
pub mod RoundTrip
pub mod ClauseText
pub mod Tests
