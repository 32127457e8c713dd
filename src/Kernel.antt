-- ===== src/Kernel.antt =====
-- src/cells/cell.cpp and src/cells/cell.hh: the kernel of each workeru, and how kernels pass missives.
pub mod State
pub mod Calls
pub mod Handlers
pub mod Receive
pub mod Send
pub mod Manageru
pub mod Round
pub mod Idle
pub mod Local
pub mod Groups
pub mod Mail
pub mod Tests
