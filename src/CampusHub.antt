-- ===== src/CampusHub.antt =====
-- The campus hub: backend/app/features/campus_hub (content_visibility.py, publishing.py).
pub mod Defs
pub mod Visibility
pub mod Feed
pub mod Push
pub mod Payloads
pub mod Publishing
mod Tests
