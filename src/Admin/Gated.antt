-- ===== src/Admin/Gated.antt =====
-- Every operation of backend/app/features/admin/admins.py keeps the gate.
use lc_connect.Base.{
  filter_rows, ◌⊎◌, ℕ, ◌≡◌, refl, sym, subst, ◌∙◌, ap, Bool, true, ◌&&◌, some, none, Option, List,
  [], ◌∷◌, ◌++◌, ◌==◌, Result, ok, err, OnOk, find?, update_first, arith, Bool-cases, inl, inr,
  text_eq, Text, ℕ_discrete, find?-passes, ℕ-equal,
}
use lc_connect.Admin.Emails.{EmailSettings}
use lc_connect.Admin.Defs.{
  AdminRole, AdminMembership, Account, Db, Error, AuditEntry, has_any_scope, has_id, is_account,
  in_role, revoked, reactivated,
}
use lc_connect.Admin.Rules.{invite_rule, revoke_rule, resign_rule, resend_rule, delete_rule}
use lc_connect.Admin.Scopes.{
  membership_of, put_membership, put_account, promoted, invited_account, anonymized, target_id,
  write_revoke, revoke_all, audit_resigned, Request, invite, revoke, resign, resend, delete, handle,
  left_by, step, run,
}
use lc_connect.Admin.Escalation.{any_row-snoc}
use lc_connect.Admin.Gate.{
  Gated, OthersGated, demote-Gated, updated_self, updated_other, revoke_all-others,
  any_row-update_first_found, any_row-update_first_kept, any_row-made,
}

abbrev is_scope_of : ℕ → AdminMembership → Bool
is_scope_of u m = m.user_id == u && m.is_current

-- The person who is invited has a scope afterwards, and nobody loses one.
put_membership-held :
    (o : Option AdminMembership) (user new_row : ℕ) (r : AdminRole) (actor now : ℕ)
    (ms : List AdminMembership)
    → ((m : AdminMembership) → o ≡ some m → find? (in_role user r) ms ≡ some m)
    → has_any_scope user (put_membership o user new_row r actor now ms) ≡ true
unfolding has_any_scope
put_membership-held none user new_row r actor now ms there =
    any_row-snoc (is_scope_of user) ms _ ∙ ground arith
put_membership-held (some m) user new_row r actor now ms there =
    any_row-made (in_role user r) (is_scope_of user) (reactivated actor now) ms {x = m}
      (there m refl)
      (left_part (m.user_id == user) _ (find?-passes (in_role user r) ms (there m refl)))
  where
    left_part : (a b : Bool) → (a && b) ≡ true → (a && true) ≡ true
    left_part a b h = ground arith

put_membership-kept :
    (o : Option AdminMembership) (user new_row : ℕ) (r : AdminRole) (actor now u : ℕ)
    (ms : List AdminMembership)
    → has_any_scope u ms ≡ true
    → has_any_scope u (put_membership o user new_row r actor now ms) ≡ true
unfolding has_any_scope
put_membership-kept none user new_row r actor now u ms h =
    any_row-snoc (is_scope_of u) ms _ ∙ ground (arith, h)
put_membership-kept (some m) user new_row r actor now u ms h =
    any_row-update_first_kept (in_role user r) (is_scope_of u) (reactivated actor now) ms
      (λ x t. left_part (x.user_id == u) x.is_current t) h
  where
    left_part : (a b : Bool) → (a && b) ≡ true → (a && true) ≡ true
    left_part a b h = ground arith

find?-snoc :
    {A : Type 0} (p : A → Bool) (xs : List A) (x : A) {a : A}
    → find? p (xs ++ x ∷ []) ≡ some a
    → (find? p xs ≡ some a) ⊎ (p x ≡ true)
unfolding find?
find?-snoc p [] x h = ground arith
find?-snoc p (y ∷ xs) x {a} h = elim (Bool-cases (p y)) [
  | inl e ↦ inl (rw e (rw e at h))
  | inr e ↦ rw e (find?-snoc p xs x {a = a} (rw e at h))
]

-- What an invitation leaves.
invited-Gated :
    (target : Option Account) (new_user new_row auth : ℕ) (normalized : Text) (r : AdminRole)
    (actor now : ℕ) (db : Db)
    → Gated db
    → Gated (record db {
      accounts = put_account target new_user normalized auth db.accounts;
      memberships =
          put_membership
            (membership_of target r db.memberships)
            (target_id target new_user)
            new_row
            r
            actor
            now
            db.memberships;
    })
invited-Gated none new_user new_row auth normalized r actor now db g u a found adm live =
    elim (find?-snoc (is_account u) db.accounts (invited_account new_user normalized auth) {a = a}
      found) [
        | inl old ↦
            put_membership-kept none new_user new_row r actor now u db.memberships
              (g u a old adm live)
        | inr new ↦
            subst
              (λ k.
                has_any_scope k (put_membership none new_user new_row r actor now db.memberships)
                ≡ true)
              (ℕ-equal new_user u new)
              (put_membership-held none new_user new_row r actor now db.memberships (λ m h. cc))
      ]
invited-Gated (some t) new_user new_row auth normalized r actor now db g u a found adm live =
    let row = find? (in_role t.id r) db.memberships in
    elim (ℕ_discrete t.id u) [
      | yes p ↦
          subst
            (λ k.
              has_any_scope k (put_membership row t.id new_row r actor now db.memberships) ≡ true)
            p (put_membership-held row t.id new_row r actor now db.memberships (λ m h. h))
      | no ne ↦ put_membership-kept row t.id new_row r actor now u db.memberships (
          g u a (sym (updated_other t.id u (promoted auth) db.accounts (λ x. refl) ne) ∙ found) adm
            live)
    ]

revoked-OthersGated :
    (i now : ℕ) (m : AdminMembership) (db : Db)
    → find? (has_id i) db.memberships ≡ some m
    → Gated db
    → OthersGated m.user_id
        (record db { memberships = update_first (has_id i) (revoked now) db.memberships })
unfolding has_any_scope
revoked-OthersGated i now m db found g u a ne there adm live =
    any_row-update_first_found (has_id i) (is_scope_of u) (revoked now) db.memberships {x = m} found
      (ground arith) (g u a there adm live)

resigned-OthersGated :
    (user now : ℕ) (log : List AuditEntry) (db : Db)
    → Gated db
    → OthersGated user (record db { memberships = revoke_all user now db.memberships; audit = log })
resigned-OthersGated user now log db g u a ne there adm live =
    revoke_all-others user now u db.memberships ne ∙ g u a there adm live

deleted-Gated :
    (user now : ℕ) (tombstone : Text) (db : Db)
    → Gated db
    → Gated (record db {
      memberships = revoke_all user now db.memberships;
      accounts = update_first (is_account user) (anonymized tombstone) db.accounts;
    })
deleted-Gated user now tombstone db g u a found adm live = elim (ℕ_discrete user u) [
  | yes p ↦
      let (x, _, same) =
        updated_self user (anonymized tombstone) db.accounts {a = a} (λ x. refl)
          (subst
            (λ k.
              find? (is_account k)
                (update_first (is_account user) (anonymized tombstone) db.accounts)
              ≡ some a)
            (sym p) found) in
      cc (live, ap (λ k. k.is_deleted) same)
  | no ne ↦
      revoke_all-others user now u db.memberships ne
      ∙ g u a (sym (updated_other user u (anonymized tombstone) db.accounts (λ x. refl) ne) ∙ found)
          adm live
]

handle-Gated :
    (e : EmailSettings) (now actor : ℕ) (r : Request) (db : Db)
    → Gated db
    → OnOk Gated (handle e now actor r db)
unfolding handle write_revoke
handle-Gated e now actor (invite email role o u i) db g =
    invite_rule Gated e actor now db email role o u i (λ r normalized auth rank.
      invited-Gated (find? (λ a. text_eq a.email normalized) db.accounts) u i auth normalized r
        actor now db g)
handle-Gated e now actor (revoke i) db g = revoke_rule Gated e actor now db i (λ m found rank more.
    demote-Gated e m.user_id
      (record db { memberships = update_first (has_id m.id) (revoked now) db.memberships })
      (revoked-OthersGated m.id now m db
        (subst (λ k. find? (has_id k) db.memberships ≡ some m)
          (sym (ℕ-equal m.id i (find?-passes (has_id i) db.memberships found))) found)
        g))
handle-Gated e now actor resign db g = resign_rule Gated e actor now db (λ other.
    let rows = filter_rows (λ m. m.user_id == actor && m.is_current) db.memberships in
    let log = audit_resigned actor rows db.audit in
    demote-Gated e actor
      (record db { memberships = revoke_all actor now db.memberships; audit = log })
      (resigned-OthersGated actor now log db g))
handle-Gated e now actor (resend i o) db g = resend_rule Gated e actor now db i o (λ m. g)
handle-Gated e now actor (delete t) db g =
    delete_rule Gated e actor now db t (λ more. deleted-Gated actor now t db g)

left_by-Gated : (db : Db) (r : Result Error Db) → Gated db → OnOk Gated r → Gated (left_by db r)
left_by-Gated db (ok db') g h = h
left_by-Gated db (err x) g h = g

-- Through any requests by anybody, handled one after another, an account whose role is that of an
-- administrator holds an active scope, unless it is deleted, if that was so before.
pub run-Gated :
    (e : EmailSettings) (requests : List (ℕ × ℕ × Request)) (db : Db)
    → Gated db
    → Gated (run e requests db)
unfolding run
run-Gated e [] db g = g
run-Gated e ((now, actor, r) ∷ rs) db g =
    run-Gated e rs (step e now actor r db)
      (left_by-Gated db (handle e now actor r db) g (handle-Gated e now actor r db g))
