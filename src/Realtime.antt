-- ===== src/Realtime.antt =====
-- The live updates: backend/app/features/realtime/, the in-memory connection manager and the bus in
-- front of it. A method of the manager is one step here, where the program may be suspended while
-- it waits for a writer to stop; the steps that the invariants are proved for are the indivisible ones.
pub mod Manager
pub mod Indices
pub mod Synced
pub mod Delivery
pub mod Reach
pub mod Refs
pub mod Revocation
pub mod Closing
pub mod Limits
mod Tests
