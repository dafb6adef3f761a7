-- ===== src/Admin/Tests.antt =====
-- Two super admins, 1 and 2, and an auditor, 3, with the addresses "a@x", "b@x" and "c@x".
use lc_connect.Base.{
  ◌≤◌, ℕ, ◌≡◌, refl, true, false, none, some, List, [], ◌∷◌, arith, count_if, find?, Text,
  update_first, ok, strip, text_eq,
}
use lc_connect.People.{admin}
use lc_connect.Admin.Emails.{EmailSettings, normalize_campus_email, after_at, infer_role_from_email}
use lc_connect.Admin.Defs.{
  AdminRole, super_admin, school_admin, auditor, AdminMembership, Account, Db, super_count,
  has_scope, has_any_scope, primary_role, demote_if_no_scopes_left, in_role,
}
use lc_connect.Admin.Scopes.{
  resign_admin_membership, Request, invite, revoke, resign, delete, sent, run, handle, check_revoke,
  write_revoke, invite_admin, revoke_admin_membership, delete_account, revoke_all,
}
use lc_connect.Admin.SuperAdmin.{Led, run-Led}
use lc_connect.Admin.Race.{concurrent_revoke}
use lc_connect.Admin.Escalation.{run-NoneRaised}
use lc_connect.Admin.Gate.{Gated}
use lc_connect.Admin.Gated.{run-Gated}

abbrev domain : Text
domain = b'x' ∷ []

abbrev address : ℕ → Text
address c = c ∷ b'@' ∷ domain

abbrev emails : EmailSettings
emails = record {
  lower = λ t. t;
  allowed_domains = domain ∷ [];
  dev_emails = [];
  dev_permitted = false;
  dev_role = λ t. none;
}

abbrev account : ℕ → ℕ → Account
account i c = record {
  id = i;
  email = address c;
  role = admin;
  auth_user_id = some i;
  is_verified = true;
  is_active = true;
  is_deleted = false;
}

abbrev row : ℕ → ℕ → AdminRole → AdminMembership
row i user r = record {
  id = i;
  user_id = user;
  role = r;
  is_current = true;
  invited_by = 1;
  invited_at = 0;
  revoked_at = none;
}

abbrev platform : Db
platform = record {
  accounts = account 1 b'a' ∷ account 2 b'b' ∷ account 3 b'c' ∷ [];
  memberships = row 11 1 super_admin ∷ row 12 2 super_admin ∷ row 13 3 auditor ∷ [];
  audit = [];
}

-- The first revokes the second, who is invited to nothing; the last super admin cannot leave.
abbrev requests : List (ℕ × ℕ × Request)
requests =
    (5, 1, revoke 12)
    ∷ (6, 1, delete (b'd' ∷ []))
    ∷ (7, 3, invite (address b'd') (some auditor) (sent (some 9)) 4 14)
    ∷ (8, 1, invite (address b'd') (some school_admin) (sent (some 9)) 4 14)
    ∷ []

run_scopes :
    (has_scope 1 super_admin (run emails requests platform).memberships ≡ true)
    × (has_any_scope 2 (run emails requests platform).memberships ≡ false)
    × (has_scope 4 school_admin (run emails requests platform).memberships ≡ true)
unfolding run handle invite_admin revoke_admin_membership check_revoke write_revoke delete_account
    primary_role has_scope has_any_scope super_count demote_if_no_scopes_left find? count_if
    update_first normalize_campus_email after_at strip text_eq infer_role_from_email revoke_all
run_scopes = (refl, refl, refl)

platform-Led : Led platform.memberships
unfolding super_count count_if
platform-Led = record { unique = λ u r. few u r; led = omega arith }
  where
    few : (u : ℕ) (r : AdminRole) → count_if (in_role u r) platform.memberships ≤ 1
    few u r = ground arith

run-Led_example : Led (run emails requests platform).memberships
unfolding run handle invite_admin revoke_admin_membership check_revoke write_revoke delete_account
    primary_role has_scope has_any_scope super_count demote_if_no_scopes_left find? count_if
    update_first normalize_campus_email after_at strip text_eq infer_role_from_email revoke_all
run-Led_example = run-Led emails requests platform (tt, (tt, (refl, (refl, tt)))) platform-Led

concurrent_revoke_example :
    (check_revoke 1 12 platform ≡ ok (row 12 2 super_admin))
    × (check_revoke 2 11 platform ≡ ok (row 11 1 super_admin))
    × (super_count
          (write_revoke emails 2 5
            (row 11 1 super_admin)
            (write_revoke emails 1 5 (row 12 2 super_admin) platform)).memberships
        ≡ 0)
unfolding super_count count_if find?
concurrent_revoke_example =
    concurrent_revoke emails 1 2 5 (row 11 1 super_admin) (row 12 2 super_admin) platform
      (omega arith) (refl, refl, refl, refl) (refl, refl, refl, refl) refl

-- The auditor asks for more, and gets nothing.
abbrev grabs : List (ℕ × ℕ × Request)
grabs = (5, 3, invite (address b'c') (some super_admin) (sent none) 4 14) ∷ (6, 3, resign) ∷ []

run-NoneRaised_example : has_scope 2 super_admin platform.memberships ≡ true
unfolding run handle invite_admin resign_admin_membership revoke_all demote_if_no_scopes_left
    has_scope has_any_scope primary_role update_first infer_role_from_email normalize_campus_email
    after_at strip text_eq
run-NoneRaised_example =
    run-NoneRaised emails grabs platform (refl, (refl, tt)) 2 super_admin refl refl

platform-Gated : Gated platform
unfolding find? has_any_scope
platform-Gated u a found adm live = ground arith

run-Gated_example : Gated (run emails requests platform)
run-Gated_example = run-Gated emails requests platform platform-Gated
