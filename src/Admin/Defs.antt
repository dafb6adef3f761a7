-- ===== src/Admin/Defs.antt =====
-- backend/app/features/admin/admins.py on the tables it writes: accounts, admin memberships
-- (backend/app/models/admin.py) and the audit trail. What the identity provider answers to an
-- invitation is an argument, and so is each new id.
use lc_connect.Base.{
  ℕ, Bool, true, false, ◌&&◌, Option, none, some, List, ◌∷◌, ◌==◌, if◌then◌else◌, Text, count_if,
  update_first, any_row,
}
use lc_connect.People.{UserRole, student, is_admin}
use lc_connect.Admin.Emails.{EmailSettings, infer_role_from_email}

pub data AdminRole : Type 0 where
  super_admin school_admin honors_admin content_admin auditor : AdminRole

-- `is_current`: the status is 'active', else it is 'revoked'.
pub record AdminMembership : Type 0 where
  pub id : ℕ
  pub user_id : ℕ
  pub role : AdminRole
  pub is_current : Bool
  pub invited_by : ℕ
  pub invited_at : ℕ
  pub revoked_at : Option ℕ

-- The columns of `users` that are read or written here.
pub record Account : Type 0 where
  pub id : ℕ
  pub email : Text
  pub role : UserRole
  pub auth_user_id : Option ℕ
  pub is_verified : Bool
  pub is_active : Bool
  pub is_deleted : Bool

pub data Action : Type 0 where
  invite revoke resign resend_invite : Action

pub record AuditEntry : Type 0 where
  pub actor_id : ℕ
  pub action : Action
  pub target_id : ℕ

pub record Db : Type 0 where
  pub accounts : List Account
  pub memberships : List AdminMembership
  pub audit : List AuditEntry

pub data Error : Type 0 where
  unknown_admin_role not_allowed invalid_email already_holds service_unavailable : Error
  membership_not_found not_active own_super_admin last_super_admin : Error
  no_admin_role cannot_step_down already_registered_error only_super_admin no_account : Error

abbrev pub role_eq : AdminRole → AdminRole → Bool
role_eq super_admin super_admin = true
role_eq school_admin school_admin = true
role_eq honors_admin honors_admin = true
role_eq content_admin content_admin = true
role_eq auditor auditor = true
role_eq _ _ = false

abbrev pub is_super : AdminRole → Bool
is_super r = role_eq r super_admin

-- `_INVITE_MATRIX`; the first role is none for somebody who ranks below both.
abbrev pub can_invite : Option AdminRole → AdminRole → Bool
can_invite (some super_admin) target = true
can_invite (some school_admin) honors_admin = true
can_invite (some school_admin) content_admin = true
can_invite (some school_admin) auditor = true
can_invite _ _ = false

abbrev pub holds_current : ℕ → AdminRole → AdminMembership → Bool
holds_current user r m = m.user_id == user && m.is_current && role_eq m.role r

-- Whether a role is among `get_admin_scopes`.
unfoldable pub has_scope : ℕ → AdminRole → List AdminMembership → Bool
has_scope user r ms = any_row (holds_current user r) ms

-- Whether `get_admin_scopes` is empty.
unfoldable pub has_any_scope : ℕ → List AdminMembership → Bool
has_any_scope user ms = any_row (λ m. m.user_id == user && m.is_current) ms

-- `_primary_role(await get_admin_scopes(...))`
unfoldable pub primary_role : ℕ → List AdminMembership → Option AdminRole
primary_role user ms =
    if has_scope user super_admin ms
    then some super_admin
    else if has_scope user school_admin ms
    then some school_admin
    else none

-- `_active_membership_count(db, 'super_admin')`
abbrev pub counts_as_super : AdminMembership → Bool
counts_as_super m = is_super m.role && m.is_current

unfoldable pub super_count : List AdminMembership → ℕ
super_count ms = count_if counts_as_super ms

abbrev pub has_id : ℕ → AdminMembership → Bool
has_id i m = m.id == i

abbrev pub is_account : ℕ → Account → Bool
is_account i a = a.id == i

abbrev pub in_role : ℕ → AdminRole → AdminMembership → Bool
in_role user r m = m.user_id == user && role_eq m.role r

abbrev pub revoked : ℕ → AdminMembership → AdminMembership
revoked now m = record m { is_current = false; revoked_at = some now }

abbrev pub reactivated : ℕ → ℕ → AdminMembership → AdminMembership
reactivated actor now m = record m {
  is_current = true;
  invited_by = actor;
  invited_at = now;
  revoked_at = none;
}

-- `infer_role_from_email`, and the lowest role where it fails.
abbrev pub demoted_role : Option UserRole → UserRole
demoted_role none = student
demoted_role (some r) = r

abbrev pub demoted : EmailSettings → Account → Account
demoted e a =
    if is_admin a.role
    then record a { role = demoted_role (infer_role_from_email e a.email) }
    else a

-- `_demote_if_no_scopes_left`. It sees the scopes that its own request has left: what another request
-- has not committed yet, it would not see, and the program takes no lock.
unfoldable pub demote_if_no_scopes_left : EmailSettings → ℕ → Db → Db
demote_if_no_scopes_left e user db =
    if has_any_scope user db.memberships
    then db
    else record db { accounts = update_first (is_account user) (demoted e) db.accounts }

abbrev pub audited : ℕ → Action → ℕ → Db → Db
audited actor action target db = record db {
  audit = record { actor_id = actor; action = action; target_id = target } ∷ db.audit;
}
