-- ===== src/Admin/Race.antt =====
-- Two revocations in backend/app/features/admin/admins.py that both read before either writes: no
-- lock is taken, and they write different rows.
use lc_connect.Base.{
  ℕ, ◌≡◌, ◌≢◌, refl, sym, ◌∙◌, Bool, true, false, some, none, Option, List, [], ◌∷◌, ◌==◌, ok,
  find?, update_first, any_row, arith, Bool-cases, inl, inr, count_if-update_first,
  find?-update_first_other, ap,
}
use lc_connect.Admin.Emails.{EmailSettings}
use lc_connect.Admin.Defs.{
  super_admin, AdminMembership, Db, holds_current, has_scope, primary_role, super_count,
  counts_as_super, has_id, revoked,
}
use lc_connect.Admin.Scopes.{check_revoke, write_revoke}
use lc_connect.Admin.SuperAdmin.{memberships-demote}

any_row-found :
    {A : Type 0} (p q : A → Bool) (xs : List A) {x : A}
    → find? p xs ≡ some x
    → q x ≡ true
    → any_row q xs ≡ true
unfolding find?
any_row-found p q [] h t = cc
any_row-found p q (y ∷ xs) {x} h t = elim (Bool-cases (p y)) [
  | inl e ↦ ground (arith, e)
  | inr e ↦ ground (arith, e, any_row-found p q xs {x = x} (rw e at h) t)
]

-- A row of a super admin who is current.
abbrev pub SuperRow : ℕ → AdminMembership → List AdminMembership → Type 0
SuperRow user m ms =
    (find? (has_id m.id) ms ≡ some m)
    × (m.user_id ≡ user)
    × (m.is_current ≡ true)
    × (m.role ≡ super_admin)

super_primary :
    (user : ℕ) (m : AdminMembership) (ms : List AdminMembership)
    → SuperRow user m ms
    → primary_role user ms ≡ some super_admin
unfolding primary_role has_scope
super_primary user m ms r =
    rw (any_row-found (has_id m.id) (holds_current user super_admin) ms r.0 (ground arith)) refl

check_passes :
    (actor user : ℕ) (m m' : AdminMembership) (db : Db)
    → actor ≢ user
    → SuperRow actor m' db.memberships
    → SuperRow user m db.memberships
    → super_count db.memberships ≡ 2
    → check_revoke actor m.id db ≡ ok m
unfolding check_revoke
check_passes actor user m m' db ne own r two =
    simp (r.0, r.2, other, super_primary actor m' db.memberships own, two, r.3)
  where
    other : (m.user_id == actor) ≡ false
    other = ground (arith, r.1)

memberships-write_revoke :
    (e : EmailSettings) (actor now : ℕ) (m : AdminMembership) (db : Db)
    → (write_revoke e actor now m db).memberships
      ≡ update_first (has_id m.id) (revoked now) db.memberships
unfolding write_revoke
memberships-write_revoke e actor now m db =
    memberships-demote e m.user_id
      (record db { memberships = update_first (has_id m.id) (revoked now) db.memberships })

-- Where the platform has two super admins, each of them passes the checks for revoking the other;
-- and if both are handled before either is written, nobody is left.
pub concurrent_revoke :
    (e : EmailSettings) (a b now : ℕ) (m n : AdminMembership) (db : Db)
    → a ≢ b
    → SuperRow a m db.memberships
    → SuperRow b n db.memberships
    → super_count db.memberships ≡ 2
    → (check_revoke a n.id db ≡ ok n)
      × (check_revoke b m.id db ≡ ok m)
      × (super_count (write_revoke e b now m (write_revoke e a now n db)).memberships ≡ 0)
unfolding super_count
concurrent_revoke e a b now m n db ne ra rb two = (
  check_passes a b n m db ne ra rb two,
  check_passes b a m n db (λ h. ne (sym h)) rb ra two,
  rw
      (
        memberships-write_revoke e b now m (write_revoke e a now n db),
        memberships-write_revoke e a now n db,
      )
      (ground (
        arith,
        count_if-update_first (has_id n.id) counts_as_super (revoked now) db.memberships {x = n}
            rb.0,
        count_if-update_first (has_id m.id) counts_as_super (revoked now)
            (update_first (has_id n.id) (revoked now) db.memberships) {x = m} still,
        ra.2,
        ra.3,
        rb.2,
        rb.3,
        two,
      )),
)
  where
    apart : n.id ≢ m.id
    apart h = ne (
        sym ra.1
        ∙ ap (λ (o : Option AdminMembership). elim o [ none ↦ 0 | some k ↦ k.user_id ])
            (sym ra.0 ∙ ap (λ k. find? (has_id k) db.memberships) (sym h) ∙ rb.0)
        ∙ rb.1)

    still : find? (has_id m.id) (update_first (has_id n.id) (revoked now) db.memberships) ≡ some m
    still =
        find?-update_first_other (has_id n.id) (has_id m.id) (revoked now) db.memberships
          (λ x h. ground (arith, apart)) (λ x h. ground (arith, apart))
        ∙ ra.0
