-- ===== src/Groups/Capacity.antt =====
-- The number of active members and the cap of a group.
pub mod Requests
pub mod Run
use lc_connect.Base.{
  ℕ, ◌+◌, ◌≤◌, ◌≡◌, refl, Bool, true, false, Option, none, some, List, [], ◌∷◌, arith, inl, inr,
  find?, count_if, update_first, count_if-update_first, update_first-none, Option-cases,
}
use lc_connect.Groups.Defs.{
  Role, Status, Member, Group, Db, active_member_count, edit_member, add_member, is_active_row,
  is_user, set_status, set_role,
}
use lc_connect.Groups.Service

abbrev pub CapBy : ℕ → Option Group → ℕ → Type 0
CapBy limit none n = Unit
CapBy limit (some g) n = n ≤ Service.effective_member_cap limit g.max_members

-- The group, if it is not deleted, has no more active members than its cap.
abbrev pub WithinCap : ℕ → Db → Type 0
WithinCap limit db = CapBy limit db.group (active_member_count db)

-- An edit of one row changes the count by one at most.
pub edit-count_le_suc :
    (u : ℕ) (f : Member → Member) (db : Db)
    → active_member_count (edit_member u f db) ≤ active_member_count db + 1
unfolding active_member_count edit_member
edit-count_le_suc u f db = elim (Option-cases (find? (is_user u) db.members)) [
  | inl e ↦ rw (update_first-none (is_user u) f db.members e) (omega arith)
  | inr (m, e) ↦
      ground (arith, count_if-update_first (is_user u) is_active_row f db.members {x = m} e)
]

-- An edit that activates nobody does not raise the count.
pub edit-count_le :
    (u : ℕ) (f : Member → Member) (db : Db)
    → ((m : Member) → is_active_row (f m) ≡ true → is_active_row m ≡ true)
    → active_member_count (edit_member u f db) ≤ active_member_count db
unfolding active_member_count edit_member
edit-count_le u f db quiet = elim (Option-cases (find? (is_user u) db.members)) [
  | inl e ↦ rw (update_first-none (is_user u) f db.members e) (omega arith)
  | inr (m, e) ↦
      ground
        (arith, quiet m, count_if-update_first (is_user u) is_active_row f db.members {x = m} e)
]

pub add-count_le_suc :
    (m : Member) (db : Db) → active_member_count (add_member m db) ≤ active_member_count db + 1
unfolding active_member_count add_member count_if
add-count_le_suc m db = ground arith

pub add-count_le :
    (m : Member) (db : Db)
    → is_active_row m ≡ false
    → active_member_count (add_member m db) ≤ active_member_count db
unfolding active_member_count add_member count_if
add-count_le m db h = ground arith

pub CapBy-le : (limit : ℕ) (o : Option Group) {m n : ℕ} → m ≤ n → CapBy limit o n → CapBy limit o m
CapBy-le limit none le h = tt
CapBy-le limit (some g) le h = omega arith
