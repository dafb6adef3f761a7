-- ===== src/Groups.antt =====
-- Groups: backend/app/features/groups (policies.py, service.py, router.py).
-- `Defs` holds the rows and errors, `Policies` the role checks, `Service` the membership flows and
-- `Router` the HTTP handlers; the other children prove.
pub mod Defs
pub mod Policies
pub mod Service
pub mod Router
pub mod Guards
pub mod Owner
pub mod Capacity
pub mod Bans
pub mod Moderation
pub mod Standing
pub mod Outranking
pub mod Race
mod Tests
