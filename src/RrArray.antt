-- ===== src/RrArray.antt =====
-- The round array of objects through which a workeru logs to the manageru.
pub mod Bytes
pub mod Objects
pub mod Ring
pub mod Stream
pub mod Fifo
pub mod Write
pub mod Read
pub mod Taken
pub mod Full
pub mod Tests
