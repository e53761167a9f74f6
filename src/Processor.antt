-- ===== src/Processor.antt =====
-- The main storage processor: src/Processors.
pub mod Instructions
pub mod Debug
pub mod Core
pub mod Characters
pub mod Binary
pub mod Selection
pub mod Branches
pub mod Zoned
pub mod Step
mod Tests
