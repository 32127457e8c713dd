-- ===== src/Binder.antt =====
-- src/cells/binder.hh and src/cells/binder.cpp: intrusive circular doubly linked lists.
pub mod Heap
pub mod Ops
pub mod Ring
pub mod Unlink
pub mod Bind
pub mod Splice
pub mod Queries
pub mod Drain
pub mod Tests
