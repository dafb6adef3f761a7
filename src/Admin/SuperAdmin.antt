-- ===== src/Admin/SuperAdmin.antt =====
-- The platform keeps a super admin: backend/app/features/admin/admins.py and account/service.py.
use lc_connect.Base.{
  Option-cases, subst, ℕ-equal, ℕ, ◌+◌, ◌≤◌, ◌≡◌, refl, sym, Bool, true, false, ◌&&◌, Option, none,
  some, List, [], ◌∷◌, ◌++◌, ◌==◌, leb, Result, ok, err, OnOk, find?, count_if, update_first, arith,
  count_if-snoc, count_if-update_first_le, count_if-update_first_same, count_if_mono, any_row-count,
  count_if-none, count_if-update_first, inl, inr, find?-passes, text_eq,
}
use lc_connect.Admin.Emails.{EmailSettings}
use lc_connect.Admin.Defs.{
  AdminRole, super_admin, AdminMembership, Account, Db, Error, is_super, role_eq, holds_current,
  has_scope, super_count, counts_as_super, has_id, in_role, revoked, reactivated,
  demote_if_no_scopes_left,
}
use lc_connect.Admin.Rules.{invite_rule, revoke_rule, resign_rule, resend_rule, delete_rule}
use lc_connect.Admin.Scopes.{
  membership_of, put_membership, target_id, write_revoke, revoke_all, Request, invite, revoke,
  resign, resend, delete, handle, left_by, step, run,
}

-- `uq_admin_membership_user_role`, and a super admin who is current.
pub record Led (ms : List AdminMembership) : Type 0 where
  pub unique : (user : ℕ) (r : AdminRole) → count_if (in_role user r) ms ≤ 1
  pub led : 1 ≤ super_count ms

in_role-revoke_all :
    (user now u : ℕ) (r : AdminRole) (ms : List AdminMembership)
    → count_if (in_role u r) (revoke_all user now ms) ≡ count_if (in_role u r) ms
unfolding revoke_all count_if
in_role-revoke_all user now u r [] = refl
in_role-revoke_all user now u r (m ∷ ms) = ground (arith, in_role-revoke_all user now u r ms)

super_count-revoke_all :
    (user now : ℕ) (ms : List AdminMembership)
    → super_count ms
      ≤ super_count (revoke_all user now ms) + count_if (holds_current user super_admin) ms
unfolding revoke_all count_if super_count
super_count-revoke_all user now [] = omega arith
super_count-revoke_all user now (m ∷ ms) = ground (arith, super_count-revoke_all user now ms)

holds-le-in_role :
    (user : ℕ) (ms : List AdminMembership)
    → count_if (holds_current user super_admin) ms ≤ count_if (in_role user super_admin) ms
holds-le-in_role user ms =
    count_if_mono (holds_current user super_admin) (in_role user super_admin) ms
      (λ m h. ground arith)

revoke_all-Led :
    (user now : ℕ) (ms : List AdminMembership)
    → count_if (holds_current user super_admin) ms + 1 ≤ super_count ms
    → Led ms
    → Led (revoke_all user now ms)
revoke_all-Led user now ms h l = record {
  unique = λ u r. omega (arith, in_role-revoke_all user now u r ms, l.unique u r);
  led = omega (arith, super_count-revoke_all user now ms);
}

pub memberships-demote :
    (e : EmailSettings) (user : ℕ) (db : Db)
    → (demote_if_no_scopes_left e user db).memberships ≡ db.memberships
unfolding demote_if_no_scopes_left
memberships-demote e user db = ground arith

role_eq-equal : (a b : AdminRole) → role_eq a b ≡ true → a ≡ b
role_eq-equal super_admin super_admin h = refl
role_eq-equal AdminRole.school_admin AdminRole.school_admin h = refl
role_eq-equal AdminRole.honors_admin AdminRole.honors_admin h = refl
role_eq-equal AdminRole.content_admin AdminRole.content_admin h = refl
role_eq-equal AdminRole.auditor AdminRole.auditor h = refl
role_eq-equal _ _ h = cc

-- What an invitation does to the rows.
appended-Led :
    (m : AdminMembership) (ms : List AdminMembership)
    → count_if (in_role m.user_id m.role) ms ≡ 0
    → Led ms
    → Led (ms ++ m ∷ [])
unfolding super_count
appended-Led m ms none_yet l = record {
  unique = λ u r. ground (arith, count_if-snoc (in_role u r) ms m, l.unique u r, same u r);
  led = omega (arith, count_if-snoc counts_as_super ms m, l.led);
}
  where
    same : (u : ℕ) (r : AdminRole) → in_role u r m ≡ true → count_if (in_role u r) ms ≡ 0
    same u r h =
        subst (λ k. count_if (in_role k r) ms ≡ 0) (ℕ-equal m.user_id u (ground arith))
          (subst (λ k. count_if (in_role m.user_id k) ms ≡ 0)
            (role_eq-equal m.role r (ground arith)) none_yet)

-- A row that is made current again.
reactivated-Led :
    (p : AdminMembership → Bool) (actor now : ℕ) (ms : List AdminMembership)
    → Led ms
    → Led (update_first p (reactivated actor now) ms)
unfolding super_count
reactivated-Led p actor now ms l = record {
  unique = λ u r. omega (
    arith,
    count_if-update_first_same p (in_role u r) (reactivated actor now) ms (λ m. refl),
    l.unique u r,
  );
  led = omega (
    arith,
    count_if-update_first_le p counts_as_super (reactivated actor now) ms (λ m h. ground arith),
    l.led,
  );
}

put_membership-Led :
    (target : Option Account) (new_user new_row : ℕ) (r : AdminRole) (actor now : ℕ)
    (ms : List AdminMembership)
    → count_if (λ m. m.user_id == new_user) ms ≡ 0
    → Led ms
    → Led (
        put_membership
          (membership_of target r ms)
          (target_id target new_user)
          new_row
          r
          actor
          now
          ms)
put_membership-Led none new_user new_row r actor now ms fresh l =
    appended-Led _ ms
      (let few =
          count_if_mono (in_role new_user r) (λ m. m.user_id == new_user) ms
            (λ m h. ground arith) in
        omega (arith, few))
      l
put_membership-Led (some a) new_user new_row r actor now ms fresh l =
    elim (Option-cases (find? (in_role a.id r) ms)) [
      | inl e ↦ rw e (appended-Led _ ms (count_if-none (in_role a.id r) ms e) l)
      | inr (m, e) ↦ rw e (reactivated-Led (in_role a.id r) actor now ms l)
    ]

-- A revocation that was checked.
revoked-Led :
    (i now : ℕ) (ms : List AdminMembership) {m : AdminMembership}
    → find? (has_id i) ms ≡ some m
    → (is_super m.role && leb (super_count ms) 1) ≡ false
    → Led ms
    → Led (update_first (has_id i) (revoked now) ms)
unfolding super_count
revoked-Led i now ms {m} found checked l = record {
  unique = λ u r. omega (
    arith,
    count_if-update_first_same (has_id i) (in_role u r) (revoked now) ms (λ m. refl),
    l.unique u r,
  );
  led = ground (
    arith,
    count_if-update_first (has_id i) counts_as_super (revoked now) ms {x = m} found,
    checked,
    l.led,
  );
}

no_scope :
    (user : ℕ) (ms : List AdminMembership)
    → has_scope user super_admin ms ≡ false
    → count_if (holds_current user super_admin) ms ≡ 0
unfolding has_scope
no_scope user ms h = any_row-count (holds_current user super_admin) ms h

abbrev LedDb : Db → Type 0
LedDb db = Led db.memberships

-- The id that is drawn for a new account is not in use.
abbrev pub DrawsFresh : Request → Db → Type 0
DrawsFresh (invite email role o u i) db = count_if (λ m. m.user_id == u) db.memberships ≡ 0
DrawsFresh _ db = Unit

demote-LedDb :
    (e : EmailSettings) (user : ℕ) (db : Db) → LedDb db → LedDb (demote_if_no_scopes_left e user db)
demote-LedDb e user db l = subst Led (sym (memberships-demote e user db)) l

handle-Led :
    (e : EmailSettings) (now actor : ℕ) (r : Request) (db : Db)
    → DrawsFresh r db
    → LedDb db
    → OnOk LedDb (handle e now actor r db)
unfolding handle write_revoke
handle-Led e now actor (invite email role o u i) db fresh l =
    invite_rule LedDb e actor now db email role o u i (λ r normalized auth rank.
      put_membership-Led (find? (λ a. text_eq a.email normalized) db.accounts) u i r actor now
        db.memberships fresh l)
handle-Led e now actor (revoke i) db fresh l =
    revoke_rule LedDb e actor now db i (λ m found rank more.
      demote-LedDb e m.user_id
        (record db { memberships = update_first (has_id m.id) (revoked now) db.memberships })
        (revoked-Led m.id now db.memberships
          (subst (λ k. find? (has_id k) db.memberships ≡ some m)
            (sym (ℕ-equal m.id i (find?-passes (has_id i) db.memberships found))) found)
          more l))
handle-Led e now actor resign db fresh l = resign_rule LedDb e actor now db (λ other.
    demote-LedDb e actor _ (
      revoke_all-Led actor now db.memberships
        (omega (arith, no_scope actor db.memberships other, l.led)) l))
handle-Led e now actor (resend i o) db fresh l = resend_rule LedDb e actor now db i o (λ m. l)
handle-Led e now actor (delete t) db fresh l =
    delete_rule LedDb e actor now db t
      (λ more. revoke_all-Led actor now db.memberships (spare more) l)
  where
    spare :
        (has_scope actor super_admin db.memberships && leb (super_count db.memberships) 1) ≡ false
        → count_if (holds_current actor super_admin) db.memberships + 1 ≤ super_count db.memberships
    spare more = ground (
      arith,
      more,
      no_scope actor db.memberships,
      holds-le-in_role actor db.memberships,
      l.unique actor super_admin,
      l.led,
    )

-- Each request draws an id that is not in use when it is handled.
abbrev pub FreshRun : EmailSettings → List (ℕ × ℕ × Request) → Db → Type 0
FreshRun e [] db = Unit
FreshRun e ((now, actor, r) ∷ rs) db = DrawsFresh r db × FreshRun e rs (step e now actor r db)

left_by-LedDb : (db : Db) (r : Result Error Db) → LedDb db → OnOk LedDb r → LedDb (left_by db r)
left_by-LedDb db (ok db') l h = h
left_by-LedDb db (err x) l h = l

-- Whatever invitations, revocations, resignations and deletions of accounts are handled one after
-- another, by anybody: a platform with a super admin keeps one, and nobody gets two rows for one
-- role. The ids that are drawn for new accounts are not in use.
pub run-Led :
    (e : EmailSettings) (requests : List (ℕ × ℕ × Request)) (db : Db)
    → FreshRun e requests db
    → Led db.memberships
    → Led (run e requests db).memberships
unfolding run
run-Led e [] db fresh l = l
run-Led e ((now, actor, r) ∷ rs) db fresh l =
    run-Led e rs (step e now actor r db) fresh.1
      (left_by-LedDb db (handle e now actor r db) l (handle-Led e now actor r db fresh.0 l))
