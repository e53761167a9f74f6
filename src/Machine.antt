-- ===== src/Machine.antt =====
-- The state that the two processors share: src/Machine.
pub mod Registers
pub mod State
pub mod Scheduler
pub mod Tests
