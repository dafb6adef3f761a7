-- ===== src/Groups/Moderation.antt =====
-- Who may do what to whom: rank, hidden groups, and what a removal leaves behind.
use lc_connect.Base.{
  ◌==◌, ℕ, ◌<◌, ◌≡◌, Bool, true, false, Option, none, some, arith, ok, err, OnOk, inl, inr,
  find?-update_first_self, find?-passes, if◌then◌else◌, Result-cases, Option-cases, subst, sym,
  refl, ◌∙◌,
}
use lc_connect.Groups.Defs.{
  Role, Status, active, removed, banned, Member, Group, Db, open_to_all, membership, edit_member,
  active_member_count, set_status, is_user, is_active, group_not_found, emit, dropped,
  revoke_member,
}
use lc_connect.Groups.Policies.{
  rank, target_rank, can_moderate, edit_group, ban_member, remove_member, is_owner_role,
}
use lc_connect.Groups.Service
use lc_connect.Groups.Router.{
  announce, Request, join, remove, change_role, accept_invite, decline_invite, handle,
  visible_group, allowed, own_row, active_role,
}
use lc_connect.Groups.Guards.{allowed-facts}

-- The rank of a caller's row.
abbrev pub rank_of : Option Role → ℕ
rank_of none = 0
rank_of (some r) = rank r

-- The target's rank, where there is a row.
abbrev pub target_rank_of : Option Member → ℕ
target_rank_of none = 0
target_rank_of (some m) = target_rank m.role

-- The requests that moderate a given person.
abbrev pub moderates : ℕ → Request → Bool
moderates target (remove t ban) = t == target
moderates target (change_role t r) = t == target
moderates target _ = false

can_moderate-rank :
    (actor : Option Role) (target : Role)
    → can_moderate actor target ≡ true
    → (target_rank target < rank_of actor) × (is_owner_role target ≡ false)
unfolding can_moderate
can_moderate-rank actor target h = ground arith

remove_member-rank :
    (actor : Option Role) (target : ℕ) (ban : Bool) (db : Db)
    → OnOk
        (λ _. target_rank_of (membership db target) < rank_of actor)
        (Service.remove_member actor target ban db)
unfolding Service.remove_member can_moderate
remove_member-rank actor target ban db = ground arith

change_role-rank :
    (actor : Option Role) (target : ℕ) (r : Role) (db : Db)
    → OnOk
        (λ _. target_rank_of (membership db target) < rank_of actor)
        (Service.change_role actor target r db)
unfolding Service.change_role can_moderate
change_role-rank actor target r db = ground arith

-- The two requests that moderate a person succeed only for a caller of a strictly higher rank.
pub moderated-rank :
    (limit user target : ℕ) (r : Request) (db : Db) {db' : Db}
    → moderates target r ≡ true
    → handle limit user r db ≡ ok db'
    → target_rank_of (membership db target) < rank_of (active_role (membership db user))
unfolding handle
moderated-rank limit user target (remove t ban) db q h =
    elim (Result-cases (allowed user (if ban then ban_member else remove_member) db)) [
      | inl ((g, role), e) ↦ ground (
        arith,
        e,
        allowed-facts user (if ban then ban_member else remove_member) db e,
        remove_member-rank role t ban db,
      )
      | inr (x, e) ↦ ground (arith, e)
    ]
moderated-rank limit user target (change_role t r) db q h =
    elim (Result-cases (allowed user edit_group db)) [
      | inl ((g, role), e) ↦
          ground (arith, e, allowed-facts user edit_group db e, change_role-rank role t r db)
      | inr (x, e) ↦ ground (arith, e)
    ]
moderated-rank limit user target _ db q h = cc

-- Requests that an invited person may send to a group that is still hidden.
abbrev pub answers_invite : Request → Bool
answers_invite accept_invite = true
answers_invite decline_invite = true
answers_invite _ = false

visible_group-hidden :
    (user : ℕ) (db : Db) {g : Group}
    → db.group ≡ some g
    → Service.is_hidden g.visibility ≡ true
    → Service.has_status is_active (membership db user) ≡ false
    → visible_group user db ≡ err group_not_found
unfolding visible_group Service.assert_group_visible
visible_group-hidden user db e hidden out = ground arith

-- To a person who is no active member, a private group answers every request but the answer to
-- an invite as if it did not exist.
pub hidden_group :
    (limit user : ℕ) (r : Request) (db : Db) {g : Group}
    → db.group ≡ some g
    → Service.is_hidden g.visibility ≡ true
    → Service.has_status is_active (membership db user) ≡ false
    → answers_invite r ≡ false
    → handle limit user r db ≡ err group_not_found
unfolding handle allowed own_row
hidden_group limit user r db e hidden out q = ground (arith, visible_group-hidden user db e)

pub membership-edit_self :
    (u : ℕ) (s : Status) (db : Db) {m : Member}
    → membership db u ≡ some m
    → membership (edit_member u (set_status s) db) u ≡ some (set_status s m)
unfolding membership edit_member
membership-edit_self u s db {m} e =
    find?-update_first_self (is_user u) (set_status s) db.members {x = m}
      (find?-passes (is_user u) db.members {x = m} e) e

remove_member-written :
    (actor : Option Role) (target : ℕ) (ban : Bool) (db : Db) {db' : Db}
    → Service.remove_member actor target ban db ≡ ok db'
    → (m : Member) × (membership db target ≡ some m)
      × (db' ≡ edit_member target (set_status (if ban then banned else removed)) db)
unfolding Service.remove_member
remove_member-written actor target ban db {db'} h = elim (Option-cases (membership db target)) [
  | inl e ↦ ground (arith, e)
  | inr (m, e) ↦ (m, e, ground (arith, e))
]

abbrev Written : ℕ → Status → Db → Db → Type 0
Written target s db db' =
    (m : Member) × (membership db target ≡ some m)
    × (db'.group ≡ db.group)
    × (membership db' target ≡ some (set_status s m))

-- A removal that succeeds, or a ban, changes the status of the row that the person had.
pub remove-written :
    (limit user target : ℕ) (ban : Bool) (db : Db) {db' : Db}
    → handle limit user (remove target ban) db ≡ ok db'
    → (m : Member) × (membership db target ≡ some m)
      × (db'.group ≡ db.group)
      × (membership db' target ≡ some (set_status (if ban then banned else removed) m))
unfolding handle edit_member membership
remove-written limit user target ban db {db'} h =
    elim (Result-cases (allowed user (if ban then ban_member else remove_member) db)) [
      | inr (x, e) ↦ ground (arith, e)
      | inl ((g, role), e) ↦ elim (Result-cases (Service.remove_member role target ban db)) [
        | inr (x, e') ↦ ground (arith, e, e')
        | inl (d, e') ↦
            let (m, row, written) = remove_member-written role target ban db e' in
            let s = if ban then banned else removed in
            let told : emit (dropped target user) (emit (revoke_member target) d) ≡ db' =
              ground (arith, e, e', h) in
            subst (Written target s db) told (
              subst
                (λ x.
                  Written target s db (emit (dropped target user) (emit (revoke_member target) x)))
                (sym written) (m, row, refl, membership-edit_self target s db row))
      ]
    ]

rejoin_succeeds :
    (limit user : ℕ) (db : Db) {g : Group} {m : Member}
    → db.group ≡ some g
    → Service.is_hidden g.visibility ≡ false
    → g.join_policy ≡ open_to_all
    → membership db user ≡ some m
    → m.status ≡ removed
    → active_member_count db < Service.effective_member_cap limit g.max_members
    → handle limit user join db ≡ ok (edit_member user (set_status active) db)
unfolding handle visible_group Service.assert_group_visible Service.join_group Service.set_member
    Service.reserve_capacity announce
rejoin_succeeds limit user db e visible policy row gone room = ground arith

-- Removal keeps the role: once a member was removed, and while the group is open, has room and is not
-- private, that person joins again with success, and has then, as an active member, the role of the
-- row from before the removal.
pub rejoin-role :
    (limit actor user : ℕ) (db removed_db : Db) {g : Group} {m : Member}
    → db.group ≡ some g
    → Service.is_hidden g.visibility ≡ false
    → g.join_policy ≡ open_to_all
    → membership db user ≡ some m
    → handle limit actor (remove user false) db ≡ ok removed_db
    → active_member_count removed_db < Service.effective_member_cap limit g.max_members
    → (db' : Db) × (handle limit user join removed_db ≡ ok db')
      × (membership db' user ≡ some (set_status active m))
rejoin-role limit actor user db removed_db {g} {m} e visible policy row gone room =
    let (m', row', same, after) = remove-written limit actor user false db gone in
    let found : m' ≡ m = cc in
    let out : membership removed_db user ≡ some (set_status removed m) =
      subst (λ x. membership removed_db user ≡ some (set_status removed x)) found after in
    (
      edit_member user (set_status active) removed_db,
      rejoin_succeeds limit user removed_db (same ∙ e) visible policy out refl room,
      membership-edit_self user active removed_db out,
    )
