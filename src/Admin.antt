-- ===== src/Admin.antt =====
-- The administrators: backend/app/features/admin/admins.py, with the campus addresses of
-- backend/app/shared/email_roles.py and the part of backend/app/features/account/service.py that
-- retires an administrator's account.
pub mod Emails
pub mod Defs
pub mod Scopes
mod Rules
pub mod SuperAdmin
pub mod Race
pub mod Escalation
pub mod Gate
pub mod Gated
mod Tests
