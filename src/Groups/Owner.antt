-- ===== src/Groups/Owner.antt =====
-- What it is for a group to have exactly one owner, whom its `owner_id` names, and that one operation
-- keeps it.
pub mod Requests
pub mod Run
use lc_connect.Base.{
  ℕ, ◌≡◌, ◌≢◌, refl, sym, subst, Bool, true, false, ◌&&◌, Option, none, some, List, [], ◌∷◌, arith,
  ◌==◌, inl, inr, find?, count_if, update_first, weight, find?-update_first_self,
  find?-update_first_other, count_if-update_first, count_if-two, count_if-pos, update_first-none,
  find?-passes, Option-cases, ◌+◌, OnOk, ◌∙◌,
}
use lc_connect.Groups.Defs.{
  Role, owner, admin, Status, active, Member, Group, Db, membership, edit_member, add_member,
  is_active, is_user, set_status, set_role,
}
use lc_connect.Groups.Policies.{is_owner_role}
use lc_connect.Groups.Service

abbrev pub is_owner_row : Member → Bool
is_owner_row m = is_owner_role m.role

abbrev pub is_active_owner : Option Member → Bool
is_active_owner none = false
is_active_owner (some m) = is_owner_role m.role && is_active m.status

-- One member row has the owner's role; it is active, and it is that of `owner_id`.
pub record HasOneOwner (g : Group) (members : List Member) : Type 0 where
  pub one : count_if is_owner_row members ≡ 1
  pub named : is_active_owner (find? (is_user g.owner_id) members) ≡ true

abbrev has_owner_role : Option Member → Bool
has_owner_role none = false
has_owner_role (some m) = is_owner_role m.role

is_user_apart : (u v : ℕ) → u ≢ v → (m : Member) → is_user u m ≡ true → is_user v m ≡ false
is_user_apart u v ne m h = ground arith

-- A user whose row is not the owner's is not the owner.
not_named :
    (g : Group) (u : ℕ) (ms : List Member)
    → is_active_owner (find? (is_user u) ms) ≡ false
    → HasOneOwner g ms
    → u ≢ g.owner_id
not_named g u ms other h p =
    let at_owner = subst (λ v. is_active_owner (find? (is_user v) ms) ≡ false) p other in
    ground (arith, at_owner, h.named)

-- An edit of another person's row, of which nothing changes the owner's role, keeps the invariant.
edit-HasOneOwner :
    (g : Group) (u : ℕ) (f : Member → Member) (ms : List Member)
    → u ≢ g.owner_id
    → ((m : Member) → (f m).user_id ≡ m.user_id)
    → ((m : Member) → find? (is_user u) ms ≡ some m → is_owner_row (f m) ≡ is_owner_row m)
    → HasOneOwner g ms
    → HasOneOwner g (update_first (is_user u) f ms)
edit-HasOneOwner g u f ms ne same keeps h = elim (Option-cases (find? (is_user u) ms)) [
  | inl e ↦ rw (update_first-none (is_user u) f ms e) h
  | inr (m, e) ↦ record {
    one =
        ground
          (arith, h.one, keeps m e, count_if-update_first (is_user u) is_owner_row f ms {x = m} e);
    named =
        rw
          (find?-update_first_other (is_user u) (is_user g.owner_id) f ms
            (is_user_apart u g.owner_id ne)
            (λ x hx. rw (same x) (is_user_apart u g.owner_id ne x hx)))
          h.named;
  }
]

-- A change of status, of a row that is not an active owner's.
edit_status-HasOneOwner :
    (g : Group) (u : ℕ) (s : Status) (ms : List Member)
    → is_active_owner (find? (is_user u) ms) ≡ false
    → HasOneOwner g ms
    → HasOneOwner g (update_first (is_user u) (set_status s) ms)
edit_status-HasOneOwner g u s ms other h =
    edit-HasOneOwner g u (set_status s) ms (not_named g u ms other h) (λ m. refl) (λ m e. refl) h

-- A new row of somebody who had none.
add-HasOneOwner :
    (g : Group) (m : Member) (ms : List Member)
    → is_active_owner (find? (is_user m.user_id) ms) ≡ false
    → is_owner_row m ≡ false
    → HasOneOwner g ms
    → HasOneOwner g (m ∷ ms)
unfolding find? count_if
add-HasOneOwner g m ms other plain h = ground (arith, not_named g m.user_id ms other h)

abbrev pub OwnedBy : Option Group → List Member → Type 0
OwnedBy none ms = Unit
OwnedBy (some g) ms = HasOneOwner g ms

abbrev pub Owned : Db → Type 0
Owned db = OwnedBy db.group db.members

edit_status-OwnedBy :
    (o : Option Group) (u : ℕ) (s : Status) (ms : List Member)
    → is_active_owner (find? (is_user u) ms) ≡ false
    → OwnedBy o ms
    → OwnedBy o (update_first (is_user u) (set_status s) ms)
edit_status-OwnedBy none u s ms other h = tt
edit_status-OwnedBy (some g) u s ms other h = edit_status-HasOneOwner g u s ms other h

pub edit_status-Owned :
    (u : ℕ) (s : Status) (db : Db)
    → is_active_owner (membership db u) ≡ false
    → Owned db
    → Owned (edit_member u (set_status s) db)
unfolding membership edit_member
edit_status-Owned u s db other h = edit_status-OwnedBy db.group u s db.members other h

edit-OwnedBy :
    (o : Option Group) (u : ℕ) (f : Member → Member) (ms : List Member)
    → is_active_owner (find? (is_user u) ms) ≡ false
    → ((m : Member) → (f m).user_id ≡ m.user_id)
    → ((m : Member) → find? (is_user u) ms ≡ some m → is_owner_row (f m) ≡ is_owner_row m)
    → OwnedBy o ms
    → OwnedBy o (update_first (is_user u) f ms)
edit-OwnedBy none u f ms other same keeps h = tt
edit-OwnedBy (some g) u f ms other same keeps h =
    edit-HasOneOwner g u f ms (not_named g u ms other h) same keeps h

pub edit-Owned :
    (u : ℕ) (f : Member → Member) (db : Db)
    → is_active_owner (membership db u) ≡ false
    → ((m : Member) → (f m).user_id ≡ m.user_id)
    → ((m : Member) → membership db u ≡ some m → is_owner_row (f m) ≡ is_owner_row m)
    → Owned db
    → Owned (edit_member u f db)
unfolding membership edit_member
edit-Owned u f db other same keeps h = edit-OwnedBy db.group u f db.members other same keeps h

add-OwnedBy :
    (o : Option Group) (m : Member) (ms : List Member)
    → is_active_owner (find? (is_user m.user_id) ms) ≡ false
    → is_owner_row m ≡ false
    → OwnedBy o ms
    → OwnedBy o (m ∷ ms)
add-OwnedBy none m ms other plain h = tt
add-OwnedBy (some g) m ms other plain h = add-HasOneOwner g m ms other plain h

pub add-Owned :
    (m : Member) (db : Db)
    → is_active_owner (membership db m.user_id) ≡ false
    → is_owner_row m ≡ false
    → Owned db
    → Owned (add_member m db)
unfolding membership add_member
add-Owned m db other plain h = add-OwnedBy db.group m db.members other plain h

-- The owner's rank passes from one active member to another: the demoted row leaves no owner, and
-- the promoted one is the only owner.
transfer-HasOneOwner :
    (g : Group) (old new : ℕ) (ms : List Member) {m n : Member}
    → HasOneOwner g ms
    → find? (is_user old) ms ≡ some m
    → is_owner_role m.role ≡ true
    → find? (is_user new) ms ≡ some n
    → is_active n.status ≡ true
    → old ≢ new
    → HasOneOwner
        (record g { owner_id = new })
        (update_first
          (is_user new)
          (set_role owner)
          (update_first (is_user old) (set_role admin) ms))
transfer-HasOneOwner g old new ms {m} {n} h hm role hn live ne =
    let demoted = update_first (is_user old) (set_role admin) ms in
    let still : find? (is_user new) demoted ≡ some n =
      find?-update_first_other (is_user old) (is_user new) (set_role admin) ms
        (is_user_apart old new ne) (is_user_apart old new ne)
      ∙ hn in
    record {
      one = ground (
        arith,
        h.one,
        role,
        count_if-update_first (is_user old) is_owner_row (set_role admin) ms {x = m} hm,
        count_if-update_first (is_user new) is_owner_row (set_role owner) demoted {x = n} still,
        count_if-pos (is_user new) is_owner_row demoted {x = n} still,
      );
      named =
          rw
            (find?-update_first_self (is_user new) (set_role owner) demoted {x = n}
              (find?-passes (is_user new) ms hn) still)
            live;
    }

-- The caller who may transfer the group is its owner.
pub transfer-Owned :
    (g : Group) (user new : ℕ) (db : Db) {m n : Member}
    → db.group ≡ some g
    → Owned db
    → membership db user ≡ some m
    → is_owner_role m.role ≡ true
    → membership db new ≡ some n
    → is_active n.status ≡ true
    → user ≢ new
    → HasOneOwner
        (record g { owner_id = new })
        (edit_member new (set_role owner) (edit_member user (set_role admin) db)).members
unfolding membership edit_member
transfer-Owned g user new db hg h hm role hn live ne =
    transfer-HasOneOwner g user new db.members (subst (λ o. OwnedBy o db.members) hg h) hm role hn
      live ne

-- Muting touches neither roles nor statuses.
mute-counts :
    (u v : ℕ) (b : Bool) (ms : List Member)
    → let muted = update_first (is_user u) (Service.mute b) ms in
      (count_if is_owner_row muted ≡ count_if is_owner_row ms)
      × (is_active_owner (find? (is_user v) muted) ≡ is_active_owner (find? (is_user v) ms))
unfolding count_if find? update_first
mute-counts u v b [] = (refl, refl)
mute-counts u v b (m ∷ ms) = ground (arith, mute-counts u v b ms)

mute-OwnedBy :
    (o : Option Group) (u : ℕ) (b : Bool) (ms : List Member)
    → OwnedBy o ms
    → OwnedBy o (update_first (is_user u) (Service.mute b) ms)
mute-OwnedBy none u b ms h = tt
mute-OwnedBy (some g) u b ms h =
    let (same_count, same_row) = mute-counts u g.owner_id b ms in
    record { one = same_count ∙ h.one; named = same_row ∙ h.named }

pub mute-Owned : (u : ℕ) (b : Bool) (db : Db) → Owned db → Owned (edit_member u (Service.mute b) db)
unfolding edit_member
mute-Owned u b db h = mute-OwnedBy db.group u b db.members h
