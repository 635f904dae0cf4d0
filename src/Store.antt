-- ===== src/Store.antt =====
-- src/store.c.
pub mod Types
pub mod Values
pub mod State
pub mod Access
pub mod Take
pub mod Whole
pub mod Walk
pub mod Bounds
pub mod Ends
pub mod Takes
pub mod Shift
pub mod Chunk
pub mod Truth
pub mod RoundTrip
pub mod Append
pub mod Coherence
pub mod Deletion
pub mod Sync
mod Tests
