-- ===== src/Connections.antt =====
-- Connections between students: backend/app/features/connections.
pub mod Requests
pub mod Calls
pub mod Pairs
pub mod Accepting
mod Tests
