-- ===== src/Groups/Race.antt =====
-- Requests of backend/app/features/groups that cross: each has read before the other writes. Nothing
-- forbids it, since a transfer and a ban take no lock and an invitation is read before the lock.
use lc_connect.Base.{
  ℕ, ◌≡◌, ◌≢◌, ◌+◌, refl, sym, ◌∙◌, true, false, some, List, ok, arith, find?, count_if, weight,
  update_first, inl, inr, Bool-cases, Option-cases, find?-passes, find?-update_first_self,
  find?-update_first_other, count_if-update_first, count_if-two, ◌==◌,
}
use lc_connect.Groups.Defs.{
  owner, admin, active, Member, Group, Db, JoinStatus, membership, edit_member, set_role,
  set_status, is_user, is_active,
}
use lc_connect.Groups.Policies.{transfer_ownership, can}
use lc_connect.Groups.Service
use lc_connect.Groups.Service.{has_status, is_banned}
use lc_connect.Groups.Router.{remove, allowed, handle, active_role, visible_group, require}
use lc_connect.Groups.Guards.{membership-user_id}
use lc_connect.Groups.Owner.{HasOneOwner, is_owner_row}
use lc_connect.Groups.Moderation.{remove-written, membership-edit_self}

is_user_apart : (u v : ℕ) → u ≢ v → (m : Member) → is_user u m ≡ true → is_user v m ≡ false
is_user_apart u v ne m h = ground arith

-- The rows after the writes of one transfer.
abbrev moved : ℕ → ℕ → List Member → List Member
moved old new ms =
    update_first (is_user new) (set_role owner) (update_first (is_user old) (set_role admin) ms)

moved-count :
    (old new : ℕ) (ms : List Member) {o n : Member}
    → old ≢ new
    → find? (is_user old) ms ≡ some o
    → find? (is_user new) ms ≡ some n
    → count_if is_owner_row (moved old new ms) + (weight (is_owner_row o) + weight (is_owner_row n))
      ≡ count_if is_owner_row ms + 1
moved-count old new ms {o} {n} ne ho hn =
    let demoted = update_first (is_user old) (set_role admin) ms in
    let still : find? (is_user new) demoted ≡ some n =
      find?-update_first_other (is_user old) (is_user new) (set_role admin) ms
        (is_user_apart old new ne) (is_user_apart old new ne)
      ∙ hn in
    omega (
      arith,
      count_if-update_first (is_user old) is_owner_row (set_role admin) ms {x = o} ho,
      count_if-update_first (is_user new) is_owner_row (set_role owner) demoted {x = n} still,
    )

-- A third person's row.
moved-third :
    (old new u : ℕ) (ms : List Member)
    → old ≢ u
    → new ≢ u
    → find? (is_user u) (moved old new ms) ≡ find? (is_user u) ms
moved-third old new u ms a b =
    find?-update_first_other (is_user new) (is_user u) (set_role owner)
      (update_first (is_user old) (set_role admin) ms) (is_user_apart new u b)
      (is_user_apart new u b)
    ∙ find?-update_first_other (is_user old) (is_user u) (set_role admin) ms (is_user_apart old u a)
        (is_user_apart old u a)

-- The old owner's row.
moved-old :
    (old new : ℕ) (ms : List Member) {o : Member}
    → old ≢ new
    → find? (is_user old) ms ≡ some o
    → find? (is_user old) (moved old new ms) ≡ some (set_role admin o)
moved-old old new ms {o} ne ho =
    find?-update_first_other (is_user new) (is_user old) (set_role owner)
      (update_first (is_user old) (set_role admin) ms) (is_user_apart new old (λ e. ne (sym e)))
      (is_user_apart new old (λ e. ne (sym e)))
    ∙ find?-update_first_self (is_user old) (set_role admin) ms {x = o}
        (find?-passes (is_user old) ms ho) ho

-- The only owner's row, and that others' rows are not.
others_plain :
    (old new : ℕ) (ms : List Member) {o n : Member}
    → old ≢ new
    → count_if is_owner_row ms ≡ 1
    → find? (is_user old) ms ≡ some o
    → is_owner_row o ≡ true
    → find? (is_user new) ms ≡ some n
    → is_owner_row n ≡ false
others_plain old new ms {o} {n} ne one ho own hn = elim (Bool-cases (is_owner_row n)) [
  | inr e ↦ e
  | inl e ↦ ground (
    arith,
    one,
    count_if-two (is_user old) (is_user new) is_owner_row ms {x = o} {y = n}
        (is_user_apart old new ne) ho hn own e,
  )
]

two_moves :
    (old a b : ℕ) (ms : List Member) {o m n : Member}
    → old ≢ a
    → old ≢ b
    → a ≢ b
    → count_if is_owner_row ms ≡ 1
    → find? (is_user old) ms ≡ some o
    → is_owner_row o ≡ true
    → find? (is_user a) ms ≡ some m
    → find? (is_user b) ms ≡ some n
    → count_if is_owner_row (moved old b (moved old a ms)) ≡ 2
two_moves old a b ms {o} {m} {n} oa ob ab one ho own hm hn = ground (
  arith,
  one,
  own,
  others_plain old a ms {o = o} {n = m} oa one ho own hm,
  others_plain old b ms {o = o} {n = n} ob one ho own hn,
  moved-count old a ms {o = o} {n = m} oa ho hm,
  moved-count old b (moved old a ms) {o = set_role admin o} {n = n} ob
      (moved-old old a ms {o = o} oa ho) (moved-third old a b ms ob ab ∙ hn),
)

named_row :
    (g : Group) (ms : List Member)
    → HasOneOwner g ms
    → (o : Member) × (find? (is_user g.owner_id) ms ≡ some o) × (is_owner_row o ≡ true)
named_row g ms h = elim (Option-cases (find? (is_user g.owner_id) ms)) [
  | inl e ↦ ground (arith, e, h.named)
  | inr (o, e) ↦ (o, e, ground (arith, e, h.named))
]

owner_allowed :
    (g : Group) (db : Db)
    → db.group ≡ some g
    → HasOneOwner g db.members
    → allowed g.owner_id transfer_ownership db ≡ ok (g, some owner)
unfolding allowed visible_group Service.assert_group_visible require active_role can membership
owner_allowed g db e h = ground (arith, e, h.named)

target_passes :
    (old new : ℕ) (db : Db) {n : Member}
    → old ≢ new
    → membership db new ≡ some n
    → is_active n.status ≡ true
    → Service.check_transfer old new db ≡ ok tt
unfolding Service.active_target
target_passes old new db {n} ne row live =
    let same : n.user_id ≡ new = membership-user_id new db row in
    let other : (n.user_id == old) ≡ false = ground (arith, ne, same) in
    simp (row, live, other) refl

-- The owner of a group with exactly one sends two requests, each to transfer it to another active
-- member: both pass their checks on the same state, and once both are written, the group has two
-- members with the owner's role.
pub concurrent_transfer :
    (a b : ℕ) (db : Db) {g : Group} {m n : Member}
    → db.group ≡ some g
    → HasOneOwner g db.members
    → membership db a ≡ some m
    → is_active m.status ≡ true
    → membership db b ≡ some n
    → is_active n.status ≡ true
    → g.owner_id ≢ a
    → g.owner_id ≢ b
    → a ≢ b
    → (allowed g.owner_id transfer_ownership db ≡ ok (g, some owner))
      × (Service.check_transfer g.owner_id a db ≡ ok tt)
      × (Service.check_transfer g.owner_id b db ≡ ok tt)
      × (count_if is_owner_row
            (Service.write_transfer g g.owner_id b
              (Service.write_transfer g g.owner_id a db)).members
          ≡ 2)
unfolding membership edit_member
concurrent_transfer a b db {g} {m} {n} e h hm live_m hn live_n oa ob ab =
    let (o, ho, own) = named_row g db.members h in
    (
      owner_allowed g db e h,
      target_passes g.owner_id a db oa hm live_m,
      target_passes g.owner_id b db ob hn live_n,
      two_moves g.owner_id a b db.members {o = o} {m = m} {n = n} oa ob ab h.one ho own hm hn,
    )

-- An invited person accepts while a moderator bans them: the acceptance has read the invitation, the
-- ban commits, and where the group has room the acceptance goes on, after which the banned person is
-- an active member.
pub concurrent_ban :
    (limit user by : ℕ) (db banned_db : Db)
    → Service.check_invite user db ≡ ok tt
    → handle limit by (remove user true) db ≡ ok banned_db
    → Service.reserve_capacity limit banned_db ≡ ok tt
    → (has_status is_banned (membership banned_db user) ≡ true)
      × (r : JoinStatus × Db) × (Service.take_invite limit user banned_db ≡ ok r)
      × (has_status is_active (membership r.1 user) ≡ true)
concurrent_ban limit user by db banned_db invited ban room =
    let (m, row, same, after) = remove-written limit by user true db ban in
    (
      rw after refl,
      (JoinStatus.joined, edit_member user (set_status active) banned_db),
      rw room refl,
      rw (membership-edit_self user active banned_db after) refl,
    )
