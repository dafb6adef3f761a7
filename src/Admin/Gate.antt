-- ===== src/Admin/Gate.antt =====
-- The gate of the administration asks for an account's role alone: that role stands for a scope.
-- backend/app/features/admin/admins.py.
use lc_connect.Base.{
  update_first-none, ℕ, ◌≡◌, refl, sym, subst, ◌∙◌, ap, Bool, true, false, some, none, Option, List,
  [], ◌∷◌, ◌==◌, if◌then◌else◌, find?, update_first, any_row, arith, Bool-cases, Option-cases, inl,
  inr, Text, ℕ_discrete, ◌≢◌, find?-update_first_self, find?-update_first_other, find?-passes,
}
use lc_connect.People.{UserRole, student, staff, is_admin}
use lc_connect.Admin.Emails.{
  EmailSettings, normalize_campus_email, infer_role_from_email, inferred, campus_role,
  role_of_domain, is_listed, after_at,
}
use lc_connect.Admin.Defs.{
  AdminMembership, Account, Db, demoted_role, demoted, has_any_scope, is_account,
  demote_if_no_scopes_left,
}
use lc_connect.Admin.Scopes.{revoke_all}

-- Every account with the role of an administrator that is not deleted holds a scope.
abbrev pub Gated : Db → Type 0
Gated db =
    (u : ℕ) (a : Account)
    → find? (is_account u) db.accounts ≡ some a
    → is_admin a.role ≡ true
    → a.is_deleted ≡ false
    → has_any_scope u db.memberships ≡ true

role_of_domain-campus : (o : Option Text) → is_admin (demoted_role (role_of_domain o)) ≡ false
role_of_domain-campus none = refl
role_of_domain-campus (some t) = ground arith

campus_role-campus : (o : Option UserRole) → is_admin (demoted_role (campus_role o)) ≡ false
campus_role-campus none = refl
campus_role-campus (some student) = refl
campus_role-campus (some staff) = refl
campus_role-campus (some UserRole.admin) = refl

either-campus :
    (b : Bool) (x y : Option UserRole)
    → is_admin (demoted_role x) ≡ false
    → is_admin (demoted_role y) ≡ false
    → is_admin (demoted_role (if b then x else y)) ≡ false
either-campus true x y h k = h
either-campus false x y h k = k

inferred-campus :
    (e : EmailSettings) (o : Option Text) → is_admin (demoted_role (inferred e o)) ≡ false
inferred-campus e none = refl
inferred-campus e (some n) =
    either-campus (is_listed n e.dev_emails) (campus_role (e.dev_role n))
      (role_of_domain (after_at n)) (campus_role-campus (e.dev_role n))
      (role_of_domain-campus (after_at n))

-- Nobody is demoted to an administrator.
demoted-campus :
    (e : EmailSettings) (t : Text) → is_admin (demoted_role (infer_role_from_email e t)) ≡ false
unfolding infer_role_from_email
demoted-campus e t = inferred-campus e (normalize_campus_email e t)

-- A row that is not counted may change without a loss.
pub any_row-update_first_found :
    {A : Type 0} (p q : A → Bool) (f : A → A) (xs : List A) {x : A}
    → find? p xs ≡ some x
    → q x ≡ false
    → any_row q xs ≡ true
    → any_row q (update_first p f xs) ≡ true
unfolding update_first find?
any_row-update_first_found p q f [] found no_x h = h
any_row-update_first_found p q f (y ∷ xs) {x} found no_x h = elim (Bool-cases (p y)) [
  | inl e ↦ ground (arith, e)
  | inr e ↦ rw e (ground (arith, any_row-update_first_found p q f xs {x = x} (rw e at found) no_x))
]

pub any_row-update_first_kept :
    {A : Type 0} (p q : A → Bool) (f : A → A) (xs : List A)
    → ((x : A) → q x ≡ true → q (f x) ≡ true)
    → any_row q xs ≡ true
    → any_row q (update_first p f xs) ≡ true
unfolding update_first
any_row-update_first_kept p q f [] keep h = h
any_row-update_first_kept p q f (x ∷ xs) keep h =
    ground (arith, keep x, any_row-update_first_kept p q f xs keep)

pub any_row-made :
    {A : Type 0} (p q : A → Bool) (f : A → A) (xs : List A) {x : A}
    → find? p xs ≡ some x
    → q (f x) ≡ true
    → any_row q (update_first p f xs) ≡ true
unfolding update_first find?
any_row-made p q f [] found t = cc
any_row-made p q f (y ∷ xs) {x} found t = elim (Bool-cases (p y)) [
  | inl e ↦ ground (arith, e)
  | inr e ↦ rw e (ground (arith, any_row-made p q f xs {x = x} (rw e at found) t))
]

-- Revoking somebody's rows leaves everybody else's.
pub revoke_all-others :
    (user now u : ℕ) (ms : List AdminMembership)
    → user ≢ u
    → has_any_scope u (revoke_all user now ms) ≡ has_any_scope u ms
unfolding has_any_scope revoke_all
revoke_all-others user now u [] ne = refl
revoke_all-others user now u (m ∷ ms) ne = ground (arith, revoke_all-others user now u ms ne)

some_injective : {A : Type 0} {a b : A} → ◌≡◌ {A = Option A} (some a) (some b) → a ≡ b
some_injective h = cc

-- The account that is found after an update of one account.
pub updated_self :
    (user : ℕ) (f : Account → Account) (accounts : List Account) {a : Account}
    → ((x : Account) → (f x).id ≡ x.id)
    → find? (is_account user) (update_first (is_account user) f accounts) ≡ some a
    → (x : Account) × (find? (is_account user) accounts ≡ some x) × (f x ≡ a)
updated_self user f accounts same h = elim (Option-cases (find? (is_account user) accounts)) [
  | inl lost ↦
      cc (ap (find? (is_account user)) (update_first-none (is_account user) f accounts lost))
  | inr (x, found) ↦ (
    x,
    found,
    some_injective (
        sym (
          find?-update_first_self (is_account user) f accounts
            (ap (λ i. i == user) (same x) ∙ find?-passes (is_account user) accounts found) found)
        ∙ h),
  )
]

pub updated_other :
    (user u : ℕ) (f : Account → Account) (accounts : List Account)
    → ((x : Account) → (f x).id ≡ x.id)
    → user ≢ u
    → find? (is_account u) (update_first (is_account user) f accounts)
      ≡ find? (is_account u) accounts
updated_other user u f accounts same ne =
    find?-update_first_other (is_account user) (is_account u) f accounts (λ x h. ground arith)
      (λ x h. ap (λ i. i == u) (same x) ∙ ground arith)

id-demoted : (e : EmailSettings) (a : Account) → (demoted e a).id ≡ a.id
id-demoted e a = ground arith

role-demoted : (e : EmailSettings) (a : Account) → is_admin (demoted e a).role ≡ false
role-demoted e a = elim (Bool-cases (is_admin a.role)) [
  | inl adm ↦ simp adm (demoted-campus e a.email)
  | inr other ↦ simp other refl
]

-- Everybody but one person is gated.
abbrev pub OthersGated : ℕ → Db → Type 0
OthersGated user db =
    (u : ℕ) (a : Account)
    → user ≢ u
    → find? (is_account u) db.accounts ≡ some a
    → is_admin a.role ≡ true
    → a.is_deleted ≡ false
    → has_any_scope u db.memberships ≡ true

demoted-Gated :
    (e : EmailSettings) (user : ℕ) (db : Db)
    → OthersGated user db
    → Gated (record db { accounts = update_first (is_account user) (demoted e) db.accounts })
demoted-Gated e user db others u a found adm live = elim (ℕ_discrete user u) [
  | yes p ↦
      let (x, _, same) = updated_self user (demoted e) db.accounts {a = a} (id-demoted e) (
        subst
          (λ k.
            find? (is_account k) (update_first (is_account user) (demoted e) db.accounts) ≡ some a)
          (sym p) found) in
      cc (role-demoted e x, ap (λ k. is_admin k.role) same)
  | no ne ↦
      others u a ne (sym (updated_other user u (demoted e) db.accounts (id-demoted e) ne) ∙ found)
        adm live
]

held-Gated :
    (user : ℕ) (db : Db) → OthersGated user db → has_any_scope user db.memberships ≡ true → Gated db
held-Gated user db others held u a found adm live = elim (ℕ_discrete user u) [
  | yes p ↦ subst (λ k. has_any_scope k db.memberships ≡ true) p held
  | no ne ↦ others u a ne found adm live
]

pub demote-Gated :
    (e : EmailSettings) (user : ℕ) (db : Db)
    → OthersGated user db
    → Gated (demote_if_no_scopes_left e user db)
unfolding demote_if_no_scopes_left
demote-Gated e user db others = elim (Bool-cases (has_any_scope user db.memberships)) [
  | inl held ↦
      subst (λ b. Gated (if b then db else demoted_db)) (sym held) (held-Gated user db others held)
  | inr lost ↦
      subst (λ b. Gated (if b then db else demoted_db)) (sym lost) (demoted-Gated e user db others)
]
  where
    demoted_db : Db
    demoted_db = record db { accounts = update_first (is_account user) (demoted e) db.accounts }
