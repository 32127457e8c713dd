-- ===== src/Kernel/Mail.antt =====
-- The mailboxes of the workerus: the slots of `pw0_routed_arr`, the signal that announces them and
-- the acknowledgements of the senders.
pub mod Same
pub mod Handling
pub mod Slots
pub mod Sending
pub mod Kept
pub mod Rounds
