-- ===== src/Admin/Rules.antt =====
-- What each operation of backend/app/features/admin/admins.py has tested when it succeeds.
use lc_connect.Base.{
  or_raise, ◌>>=◌, update_first, ℕ, ◌≡◌, true, false, ◌&&◌, Option, none, some, ◌==◌, leb, Text,
  OnOk, find?, filter_rows, inl, inr, Bool-cases, Option-cases, text_eq, ok, err,
}
use lc_connect.Admin.Emails.{EmailSettings, normalize_campus_email}
use lc_connect.Admin.Defs.{
  AdminRole, super_admin, AdminMembership, Account, Db, Action, is_super, has_scope, has_any_scope,
  primary_role, super_count, has_id, is_account, can_invite, demote_if_no_scopes_left, audited,
  already_registered_error, service_unavailable,
}
use lc_connect.Admin.Scopes.{
  InviteOutcome, sent, already_registered, identity, membership_of, is_current_row, put_membership,
  put_account, target_id, row_id, invite_admin, check_revoke, write_revoke, revoke_admin_membership,
  revoke_all, audit_resigned, resign_admin_membership, resend_admin_invite, delete_account,
  anonymized,
}

target_of : Text → Db → Option Account
target_of normalized db = find? (λ a. text_eq a.email normalized) db.accounts

module _ (Q : Db → Type 0) (e : EmailSettings) (actor now : ℕ) (db : Db) where
  -- The state that an invitation leaves.
  abbrev pub invited : AdminRole → Option Account → Text → ℕ → ℕ → ℕ → Db
  invited r target normalized auth new_user new_row =
      audited actor Action.invite (row_id (membership_of target r db.memberships) new_row)
        (record db {
          accounts = put_account target new_user normalized auth db.accounts;
          memberships =
              put_membership (membership_of target r db.memberships) (target_id target new_user)
                new_row r actor now db.memberships;
        })

  pub invite_rule :
      (email : Text) (role : Option AdminRole) (outcome : InviteOutcome) (new_user new_row : ℕ)
      → ((r : AdminRole) (normalized : Text) (auth : ℕ)
          → can_invite (primary_role actor db.memberships) r ≡ true
          → Q (
              invited r
                (find? (λ a. text_eq a.email normalized) db.accounts)
                normalized
                auth
                new_user
                new_row))
      → OnOk Q (invite_admin e actor email role outcome new_user new_row now db)
  unfolding invite_admin
  invite_rule email none outcome new_user new_row h = tt
  invite_rule email (some r) outcome new_user new_row h =
      elim (Bool-cases (can_invite (primary_role actor db.memberships) r)) [
        | inr no_rank ↦ rw no_rank tt
        | inl rank ↦ elim (Option-cases (normalize_campus_email e email)) [
          | inl bad ↦ rw (rank, bad) tt
          | inr (normalized, good) ↦
              let target = find? (λ a. text_eq a.email normalized) db.accounts in
              elim (Bool-cases (is_current_row (membership_of target r db.memberships))) [
                | inl held ↦ rw (rank, good, held) tt
                | inr free ↦ elim (Option-cases (identity target outcome)) [
                  | inl down ↦ rw (rank, good, free, down) tt
                  | inr (auth, up) ↦ rw (rank, good, free, up) (h r normalized auth rank)
                ]
              ]
        ]
      ]

  pub revoke_rule :
      (i : ℕ)
      → ((m : AdminMembership)
          → find? (has_id i) db.memberships ≡ some m
          → can_invite (primary_role actor db.memberships) m.role ≡ true
          → (is_super m.role && leb (super_count db.memberships) 1) ≡ false
          → Q (write_revoke e actor now m db))
      → OnOk Q (revoke_admin_membership e actor i now db)
  unfolding revoke_admin_membership check_revoke
  revoke_rule i h = elim (Option-cases (find? (has_id i) db.memberships)) [
    | inl none_found ↦ rw none_found tt
    | inr (m, found) ↦ elim (Bool-cases m.is_current) [
      | inr old ↦ simp (found, old) tt
      | inl live ↦ elim (Bool-cases (m.user_id == actor && is_super m.role)) [
        | inl own ↦ simp (found, live, own) tt
        | inr other ↦ elim (Bool-cases (can_invite (primary_role actor db.memberships) m.role)) [
          | inr no_rank ↦ simp (found, live, other, no_rank) tt
          | inl rank ↦ elim (Bool-cases (is_super m.role && leb (super_count db.memberships) 1)) [
            | inl last ↦ simp (found, live, other, rank, last) tt
            | inr more ↦ simp (found, live, other, rank, more) (h m found rank more)
          ]
        ]
      ]
    ]
  ]

  pub resend_rule :
      (i : ℕ) (outcome : InviteOutcome)
      → ((m : AdminMembership) → Q (audited actor Action.resend_invite m.id db))
      → OnOk Q (resend_admin_invite actor i outcome db)
  unfolding resend_admin_invite
  resend_rule i outcome h = elim (Option-cases (find? (has_id i) db.memberships)) [
    | inl none_found ↦ rw none_found tt
    | inr (m, found) ↦ elim (Bool-cases m.is_current) [
      | inr old ↦ simp (found, old) tt
      | inl live ↦ elim (Bool-cases (can_invite (primary_role actor db.memberships) m.role)) [
        | inr no_rank ↦ simp (found, live, no_rank) tt
        | inl rank ↦ elim (Option-cases (find? (is_account m.user_id) db.accounts)) [
          | inl lost ↦ simp (found, live, rank, lost) tt
          | inr (a, there) ↦ simp (found, live, rank, there) (answered outcome m)
        ]
      ]
    ]
  ]
    where
      answered :
          (outcome : InviteOutcome) (m : AdminMembership)
          → OnOk Q (
              elim outcome [ sent o ↦ ok o | already_registered o ↦ err already_registered_error ]
              >>= λ resent. or_raise resent service_unavailable >>= λ auth.
                  ok (audited actor Action.resend_invite m.id db))
      answered (sent none) m = tt
      answered (sent (some auth)) m = h m
      answered (already_registered o) m = tt

  pub delete_rule :
      (tombstone : Text)
      → ((has_scope actor super_admin db.memberships && leb (super_count db.memberships) 1) ≡ false
          → Q (record db {
            memberships = revoke_all actor now db.memberships;
            accounts = update_first (is_account actor) (anonymized tombstone) db.accounts;
          }))
      → OnOk Q (delete_account actor tombstone now db)
  unfolding delete_account
  delete_rule tombstone h =
      elim (Bool-cases
        (has_scope actor super_admin db.memberships && leb (super_count db.memberships) 1)) [
          | inl last ↦ rw last tt
          | inr more ↦ rw more (h more)
        ]

  pub resign_rule :
      (has_scope actor super_admin db.memberships ≡ false
        → Q (
            demote_if_no_scopes_left e actor (record db {
              memberships = revoke_all actor now db.memberships;
              audit =
                  audit_resigned actor
                    (filter_rows (λ m. m.user_id == actor && m.is_current) db.memberships)
                    db.audit;
            })))
      → OnOk Q (resign_admin_membership e actor now db)
  unfolding resign_admin_membership
  resign_rule h = elim (Bool-cases (has_any_scope actor db.memberships)) [
    | inr e ↦ rw e tt
    | inl e ↦ elim (Bool-cases (has_scope actor super_admin db.memberships)) [
      | inl f ↦ rw (e, f) tt
      | inr f ↦ rw (e, f) (h f)
    ]
  ]
