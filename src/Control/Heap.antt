-- ===== src/Control/Heap.antt =====
-- The system queue space: `GuestHeap` of src/Processors/ControlStorage/GuestHeap.{h,cpp}.
pub mod Sets
pub mod FreeLists
pub mod Ledger
pub mod Sizes
pub mod Moves
pub mod Enqueue
pub mod Ends
pub mod Pool
pub mod Checks
pub mod Requests
pub mod Restore
pub mod Sound
pub mod QuietFree
pub mod Quiet
pub mod Assigned
pub mod Search
pub mod Extended
pub mod Allocate
pub mod Freed
pub mod Start
pub mod Checkpoint
mod Tests
