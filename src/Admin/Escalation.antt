-- ===== src/Admin/Escalation.antt =====
-- Nobody but a super admin makes super admins or school admins:
-- backend/app/features/admin/admins.py.
use lc_connect.Base.{
  ◌∙◌, ℕ, ◌≡◌, refl, sym, subst, Bool, true, false, ◌&&◌, ◌||◌, none, Option, List, [], ◌∷◌, ◌++◌,
  ◌==◌, Result, ok, err, OnOk, find?, update_first, any_row, arith, Bool-cases, Option-cases, inl,
  inr, text_eq, All,
}
use lc_connect.Admin.Emails.{EmailSettings}
use lc_connect.Admin.Defs.{
  AdminRole, super_admin, school_admin, AdminMembership, Account, Db, Error, role_eq, holds_current,
  has_scope, primary_role, has_id, in_role, revoked, reactivated, can_invite,
  demote_if_no_scopes_left,
}
use lc_connect.Admin.Rules.{invite_rule, revoke_rule, resign_rule, resend_rule, delete_rule}
use lc_connect.Admin.Scopes.{
  membership_of, put_membership, target_id, write_revoke, revoke_all, Request, invite, revoke,
  resign, resend, delete, handle, left_by, step, run,
}
use lc_connect.Admin.SuperAdmin.{memberships-demote}

-- The two roles that rank above the others.
abbrev pub is_top : AdminRole → Bool
is_top r = role_eq r super_admin || role_eq r school_admin

pub any_row-snoc :
    {A : Type 0} (q : A → Bool) (xs : List A) (x : A)
    → any_row q (xs ++ x ∷ []) ≡ (any_row q xs || q x)
any_row-snoc q [] x = ground arith
any_row-snoc q (y ∷ xs) x = ground (arith, any_row-snoc q xs x)

any_row-update_first :
    {A : Type 0} (p q : A → Bool) (f : A → A) (xs : List A)
    → ((x : A) → p x ≡ true → q (f x) ≡ true → q x ≡ true)
    → any_row q (update_first p f xs) ≡ true
    → any_row q xs ≡ true
unfolding update_first
any_row-update_first p q f [] keep h = h
any_row-update_first p q f (x ∷ xs) keep h =
    ground (arith, keep x, any_row-update_first p q f xs keep)

roles_apart : (r top : AdminRole) → is_top top ≡ true → is_top r ≡ false → role_eq r top ≡ false
roles_apart r top high low = ground arith

and_false : (a b : Bool) → (a && false && b) ≡ false
and_false a b = ground arith

kept_row : (b x y z : Bool) → ((b ≡ true) → (x && false && z) ≡ true → (x && y && z) ≡ true)
kept_row b x y z e h = ground arith

any_row-revoke_all :
    (user now u : ℕ) (r : AdminRole) (ms : List AdminMembership)
    → any_row (holds_current u r) (revoke_all user now ms) ≡ true
    → any_row (holds_current u r) ms ≡ true
unfolding revoke_all
any_row-revoke_all user now u r [] h = h
any_row-revoke_all user now u r (m ∷ ms) h = elim (Bool-cases (m.user_id == user && m.is_current)) [
  | inl e ↦ elim (Bool-cases (holds_current u r m)) [
    | inl f ↦ rw f refl
    | inr f ↦ rw f (
        any_row-revoke_all user now u r ms
          (rw (e, and_false (m.user_id == u) (role_eq m.role r)) at h))
  ]
  | inr e ↦ elim (Bool-cases (holds_current u r m)) [
    | inl f ↦ rw f refl
    | inr f ↦ rw f (any_row-revoke_all user now u r ms (rw (e, f) at h))
  ]
]

revoked_row :
    (now u : ℕ) (top : AdminRole) (m : AdminMembership)
    → holds_current u top (revoked now m) ≡ true
    → holds_current u top m ≡ true
revoked_row now u top m h = cc (and_false (m.user_id == u) (role_eq m.role top))

reactivated_row :
    (user actor now u : ℕ) (r top : AdminRole) (m : AdminMembership)
    → role_eq r top ≡ false
    → in_role user r m ≡ true
    → holds_current u top (reactivated actor now m) ≡ true
    → holds_current u top m ≡ true
reactivated_row user actor now u r top m ne h h' =
    absurd (clash m.role (ground arith) (ground arith))
  where
    clash : (k : AdminRole) → role_eq k r ≡ true → role_eq k top ≡ true → ⊥
    clash k p q = ground (arith, ne)

first_of_two : (a b : Bool) → (a || b) ≡ true → b ≡ false → a ≡ true
first_of_two a b h e = ground arith

module _ (u : ℕ) (top : AdminRole) (is_high : is_top top ≡ true) where
  put_membership-scope :
      (target : Option Account) (new_user new_row : ℕ) (r : AdminRole) (actor now : ℕ)
      (ms : List AdminMembership)
      → is_top r ≡ false
      → has_scope u top (
          put_membership
            (membership_of target r ms)
            (target_id target new_user)
            new_row
            r
            actor
            now
            ms)
        ≡ true
      → has_scope u top ms ≡ true
  unfolding has_scope
  put_membership-scope target new_user new_row r actor now ms low h =
      elim (Option-cases (membership_of target r ms)) [
        | inl none_yet ↦ appended (rw none_yet at h)
        | inr (m, old) ↦
            any_row-update_first (in_role (target_id target new_user) r) (holds_current u top)
              (reactivated actor now) ms
              (λ x p q.
                reactivated_row (target_id target new_user) actor now u r top x
                  (roles_apart r top is_high low) p q)
              (rw old at h)
      ]
    where
      appended :
          any_row
              (holds_current u top)
              (put_membership none (target_id target new_user) new_row r actor now ms)
            ≡ true
          → any_row (holds_current u top) ms ≡ true
      appended h =
          first_of_two _ _ (sym (any_row-snoc (holds_current u top) ms _) ∙ h)
            (rw (roles_apart r top is_high low) (ground arith))

low_rank :
    (actor : ℕ) (r : AdminRole) (ms : List AdminMembership)
    → has_scope actor super_admin ms ≡ false
    → can_invite (primary_role actor ms) r ≡ true
    → is_top r ≡ false
unfolding primary_role
low_rank actor r ms no_super rank = ground (arith, no_super, rank)

-- Who holds a top role afterwards held it before.
abbrev pub NoneRaised : List AdminMembership → List AdminMembership → Type 0
NoneRaised before after =
    (u : ℕ) (top : AdminRole)
    → is_top top ≡ true
    → has_scope u top after ≡ true
    → has_scope u top before ≡ true

demote-NoneRaised :
    (e : EmailSettings) (user : ℕ) (db : Db) (before : List AdminMembership)
    → NoneRaised before db.memberships
    → NoneRaised before (demote_if_no_scopes_left e user db).memberships
demote-NoneRaised e user db before h =
    subst (NoneRaised before) (sym (memberships-demote e user db)) h

handle-NoneRaised :
    (e : EmailSettings) (now actor : ℕ) (r : Request) (db : Db)
    → has_scope actor super_admin db.memberships ≡ false
    → OnOk (λ db'. NoneRaised db.memberships db'.memberships) (handle e now actor r db)
unfolding handle write_revoke has_scope
handle-NoneRaised e now actor (invite email role o u i) db low =
    invite_rule (λ db'. NoneRaised db.memberships db'.memberships) e actor now db email role o u i
      (λ r normalized auth rank v top high.
        put_membership-scope v top high (find? (λ a. text_eq a.email normalized) db.accounts) u i r
          actor now db.memberships (low_rank actor r db.memberships low rank))
handle-NoneRaised e now actor (revoke i) db low =
    revoke_rule (λ db'. NoneRaised db.memberships db'.memberships) e actor now db i
      (λ m found rank more.
        demote-NoneRaised e m.user_id
          (record db { memberships = update_first (has_id m.id) (revoked now) db.memberships })
          db.memberships
          (λ v top high.
            any_row-update_first (has_id m.id) (holds_current v top) (revoked now) db.memberships
              (λ x p. revoked_row now v top x)))
handle-NoneRaised e now actor resign db low =
    resign_rule (λ db'. NoneRaised db.memberships db'.memberships) e actor now db
      (λ other.
        demote-NoneRaised e actor _ db.memberships
          (λ v top high. any_row-revoke_all actor now v top db.memberships))
handle-NoneRaised e now actor (resend i o) db low =
    resend_rule (λ db'. NoneRaised db.memberships db'.memberships) e actor now db i o
      (λ m v top high h. h)
handle-NoneRaised e now actor (delete t) db low =
    delete_rule (λ db'. NoneRaised db.memberships db'.memberships) e actor now db t
      (λ more v top high. any_row-revoke_all actor now v top db.memberships)

left_by-NoneRaised :
    (db : Db) (r : Result Error Db)
    → OnOk (λ db'. NoneRaised db.memberships db'.memberships) r
    → NoneRaised db.memberships (left_by db r).memberships
left_by-NoneRaised db (ok db') h = h
left_by-NoneRaised db (err x) h = λ u top high held. held

still_low :
    (before after : List AdminMembership) (senders : List (ℕ × ℕ × Request))
    → NoneRaised before after
    → All (λ s. has_scope s.1 super_admin before ≡ false) senders
    → All (λ s. has_scope s.1 super_admin after ≡ false) senders
still_low before after [] h low = tt
still_low before after (s ∷ senders) h low = (
  elim (Bool-cases (has_scope s.1 super_admin after)) [
    | inl up ↦ cc (h s.1 super_admin refl up, low.0)
    | inr no_super ↦ no_super
  ],
  still_low before after senders h low.1,
)

-- Requests by people who are no super admins, however many they are and in whatever order, give
-- nobody the role of a super admin or of a school admin.
pub run-NoneRaised :
    (e : EmailSettings) (requests : List (ℕ × ℕ × Request)) (db : Db)
    → All (λ s. has_scope s.1 super_admin db.memberships ≡ false) requests
    → (u : ℕ) (top : AdminRole) → is_top top ≡ true
    → has_scope u top (run e requests db).memberships ≡ true
    → has_scope u top db.memberships ≡ true
unfolding run
run-NoneRaised e [] db low u top high h = h
run-NoneRaised e ((now, actor, r) ∷ rs) db low u top high h =
    let once =
      left_by-NoneRaised db (handle e now actor r db) (handle-NoneRaised e now actor r db low.0) in
    once u top high (
      run-NoneRaised e rs (step e now actor r db)
        (still_low db.memberships (step e now actor r db).memberships rs once low.1) u top high h)
