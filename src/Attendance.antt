-- ===== src/Attendance.antt =====
-- Class attendance: backend/app/features/attendance (service.py, qr.py, challenges.py).
pub mod Defs
pub mod Sessions
pub mod CheckIn
pub mod Correction
pub mod Reports
pub mod Calls
pub mod Closing
pub mod Sweeping
pub mod Authentic
pub mod Live
mod Tests
