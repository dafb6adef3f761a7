-- ===== src/Admin/Scopes.antt =====
-- The operations of backend/app/features/admin/admins.py.
use lc_connect.Base.{
  ℕ, Bool, true, false, not, ◌&&◌, Option, none, some, List, [], ◌∷◌, ◌++◌, ◌==◌, leb,
  if◌then◌else◌, Text, Result, ok, err, ◌>>=◌, ◌>>◌, raise_if, or_raise, find?, filter_rows,
  update_first, text_eq,
}
use lc_connect.People.{admin}
use lc_connect.Admin.Emails.{EmailSettings, normalize_campus_email}
use lc_connect.Admin.Defs.{
  AdminRole, super_admin, AdminMembership, Account, Action, AuditEntry, Db, Error,
  unknown_admin_role, not_allowed, invalid_email, already_holds, service_unavailable,
  membership_not_found, not_active, own_super_admin, last_super_admin, no_admin_role,
  cannot_step_down, only_super_admin, no_account, already_registered_error, is_super, can_invite,
  has_scope, has_any_scope, primary_role, super_count, has_id, is_account, in_role, revoked,
  reactivated, demote_if_no_scopes_left, audited,
}

-- What `invite_auth_user` gives: the id of the new identity, none when the service is down, or the
-- exception for an address that is registered, with what the search for its identity then gives.
pub data InviteOutcome : Type 0 where
  sent : Option ℕ → InviteOutcome
  already_registered : Option ℕ → InviteOutcome

abbrev pub outcome_id : InviteOutcome → Option ℕ
outcome_id (sent i) = i
outcome_id (already_registered i) = i

-- The identity of the person who is invited: the one on the account, or else the provider's.
abbrev pub identity : Option Account → InviteOutcome → Option ℕ
identity none o = outcome_id o
identity (some a) o = elim a.auth_user_id [ none ↦ outcome_id o | some i ↦ some i ]

abbrev pub membership_of :
    Option Account → AdminRole → List AdminMembership → Option AdminMembership
membership_of none r ms = none
membership_of (some a) r ms = find? (in_role a.id r) ms

abbrev pub is_current_row : Option AdminMembership → Bool
is_current_row none = false
is_current_row (some m) = m.is_current

-- The account of the person who is invited, promoted or new.
abbrev pub promoted : ℕ → Account → Account
promoted auth a = record a {
  role = admin;
  auth_user_id = (elim a.auth_user_id [ none ↦ some auth | some i ↦ some i ]);
}

abbrev pub invited_account : ℕ → Text → ℕ → Account
invited_account id email auth = record {
  id = id;
  email = email;
  role = admin;
  auth_user_id = some auth;
  is_verified = true;
  is_active = true;
  is_deleted = false;
}

abbrev pub put_account : Option Account → ℕ → Text → ℕ → List Account → List Account
put_account none new_user email auth accounts = accounts ++ invited_account new_user email auth ∷ []
put_account (some a) new_user email auth accounts =
    update_first (is_account a.id) (promoted auth) accounts

abbrev pub target_id : Option Account → ℕ → ℕ
target_id none new_user = new_user
target_id (some a) new_user = a.id

-- The row that is reactivated, or a new one.
abbrev pub put_membership :
    Option AdminMembership → ℕ → ℕ → AdminRole → ℕ → ℕ → List AdminMembership → List AdminMembership
put_membership none user new_row r actor now ms =
    ms
    ++ record {
      id = new_row;
      user_id = user;
      role = r;
      is_current = true;
      invited_by = actor;
      invited_at = now;
      revoked_at = none;
    }
      ∷ []
put_membership (some m) user new_row r actor now ms =
    update_first (in_role user r) (reactivated actor now) ms

abbrev pub row_id : Option AdminMembership → ℕ → ℕ
row_id none new_row = new_row
row_id (some m) new_row = m.id

unfoldable pub invite_admin :
    EmailSettings → ℕ → Text → Option AdminRole → InviteOutcome → ℕ → ℕ → ℕ → Db → Result Error Db
invite_admin e actor email role outcome new_user new_row now db = do
  r ← or_raise role unknown_admin_role
  raise_if (not (can_invite (primary_role actor db.memberships) r)) not_allowed
  normalized ← or_raise (normalize_campus_email e email) invalid_email
  let target = find? (λ a. text_eq a.email normalized) db.accounts
  let existing = membership_of target r db.memberships
  raise_if (is_current_row existing) already_holds
  auth ← or_raise (identity target outcome) service_unavailable
  let user = target_id target new_user
  ok (
      audited actor Action.invite (row_id existing new_row) (record db {
        accounts = put_account target new_user normalized auth db.accounts;
        memberships = put_membership existing user new_row r actor now db.memberships;
      }))

-- What a revocation reads and tests before it writes.
unfoldable pub check_revoke : ℕ → ℕ → Db → Result Error AdminMembership
check_revoke actor i db = do
  m ← or_raise (find? (has_id i) db.memberships) membership_not_found
  raise_if (not m.is_current) not_active
  raise_if (m.user_id == actor && is_super m.role) own_super_admin
  raise_if (not (can_invite (primary_role actor db.memberships) m.role)) not_allowed
  raise_if (is_super m.role && leb (super_count db.memberships) 1) last_super_admin
  ok m

unfoldable pub write_revoke : EmailSettings → ℕ → ℕ → AdminMembership → Db → Db
write_revoke e actor now m db = audited actor Action.revoke m.id (
    demote_if_no_scopes_left e m.user_id
      (record db { memberships = update_first (has_id m.id) (revoked now) db.memberships }))

unfoldable pub revoke_admin_membership : EmailSettings → ℕ → ℕ → ℕ → Db → Result Error Db
revoke_admin_membership e actor i now db = do
  m ← check_revoke actor i db
  ok (write_revoke e actor now m db)

-- Revokes each current row of a person.
unfoldable pub revoke_all : ℕ → ℕ → List AdminMembership → List AdminMembership
revoke_all user now [] = []
revoke_all user now (m ∷ ms) =
    (if m.user_id == user && m.is_current then revoked now m else m) ∷ revoke_all user now ms

unfoldable pub audit_resigned : ℕ → List AdminMembership → List AuditEntry → List AuditEntry
audit_resigned actor [] log = log
audit_resigned actor (m ∷ ms) log =
    audit_resigned actor ms
      (record { actor_id = actor; action = Action.resign; target_id = m.id } ∷ log)

unfoldable pub resign_admin_membership : EmailSettings → ℕ → ℕ → Db → Result Error Db
resign_admin_membership e actor now db = do
  raise_if (not (has_any_scope actor db.memberships)) no_admin_role
  raise_if (has_scope actor super_admin db.memberships) cannot_step_down
  let rows = filter_rows (λ m. m.user_id == actor && m.is_current) db.memberships
  ok (
      demote_if_no_scopes_left e actor (record db {
        memberships = revoke_all actor now db.memberships;
        audit = audit_resigned actor rows db.audit;
      }))

-- The identity provider is asked for the address of the row's account.
unfoldable pub resend_admin_invite : ℕ → ℕ → InviteOutcome → Db → Result Error Db
resend_admin_invite actor i outcome db = do
  m ← or_raise (find? (has_id i) db.memberships) membership_not_found
  raise_if (not m.is_current) not_active
  raise_if (not (can_invite (primary_role actor db.memberships) m.role)) not_allowed
  target ← or_raise (find? (is_account m.user_id) db.accounts) no_account
  resent ← elim outcome [ sent o ↦ ok o | already_registered o ↦ err already_registered_error ]
  auth ← or_raise resent service_unavailable
  ok (audited actor Action.resend_invite m.id db)

-- `_assert_not_last_super_admin` of backend/app/features/account/service.py, and what
-- `delete_account` does to the memberships and the account.
abbrev pub anonymized : Text → Account → Account
anonymized tombstone a = record a {
  email = tombstone;
  auth_user_id = none;
  is_verified = false;
  is_active = false;
  is_deleted = true;
}

unfoldable pub delete_account : ℕ → Text → ℕ → Db → Result Error Db
delete_account user tombstone now db = do
  raise_if (has_scope user super_admin db.memberships && leb (super_count db.memberships) 1)
      only_super_admin
  ok (record db {
    memberships = revoke_all user now db.memberships;
    accounts = update_first (is_account user) (anonymized tombstone) db.accounts;
  })

-- The requests that write memberships, with what the outside adds to each.
pub data Request : Type 0 where
  invite : Text → Option AdminRole → InviteOutcome → ℕ → ℕ → Request
  revoke : ℕ → Request
  resign : Request
  resend : ℕ → InviteOutcome → Request
  delete : Text → Request

unfoldable pub handle : EmailSettings → ℕ → ℕ → Request → Db → Result Error Db
handle e now actor (invite email role o u i) db = invite_admin e actor email role o u i now db
handle e now actor (revoke i) db = revoke_admin_membership e actor i now db
handle e now actor resign db = resign_admin_membership e actor now db
handle e now actor (resend i o) db = resend_admin_invite actor i o db
handle e now actor (delete tombstone) db = delete_account actor tombstone now db

-- What a request leaves: an exception rolls everything back.
abbrev pub left_by : Db → Result Error Db → Db
left_by db (ok db') = db'
left_by db (err _) = db

abbrev pub step : EmailSettings → ℕ → ℕ → Request → Db → Db
step e now actor r db = left_by db (handle e now actor r db)

-- Requests with their times and their senders.
unfoldable pub run : EmailSettings → List (ℕ × ℕ × Request) → Db → Db
run e [] db = db
run e ((now, actor, r) ∷ rs) db = run e rs (step e now actor r db)
