-- ===== src/Control.antt =====
-- Parts of the control storage processor: src/Processors/ControlStorage.
pub mod BasicNumber
pub mod DirectArea
pub mod WorkSpace
pub mod Heap
pub mod Elements
pub mod MapTable
pub mod SvcTable
pub mod Transient
pub mod Translation
mod Tests
