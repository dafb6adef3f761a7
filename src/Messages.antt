-- ===== src/Messages.antt =====
-- The messages of a conversation: backend/app/features/messages, the boundaries of
-- backend/app/features/realtime/service.py and the purge of backend/app/shared/message_retention.py.
pub mod Defs
pub mod Access
pub mod Sending
pub mod Rules
pub mod Writes
pub mod Lives
pub mod History
pub mod Retry
pub mod Receipts
pub mod Cursors
pub mod Boundaries
pub mod Newest
pub mod Retention
pub mod Batches
pub mod Deletion
pub mod Purge
pub mod Acknowledged
pub mod StaffThreads
mod Tests
