-- ===== src/Groups/Guards.antt =====
-- What the guards of the handlers establish about the caller.
use lc_connect.Base.{ℕ, ◌≡◌, true, Option, some, arith, ok, find?-passes}
use lc_connect.Groups.Defs.{Role, owner, Group, Member, Db, is_active, is_user, membership}
use lc_connect.Groups.Policies.{GroupAction, can, transfer_ownership}
use lc_connect.Groups.Service
use lc_connect.Groups.Router.{visible_group, active_role, own_row, allowed}

-- A request that is let through acts on the stored group, with the caller's role.
pub allowed-facts :
    (user : ℕ) (action : GroupAction) (db : Db) {g : Group} {r : Option Role}
    → allowed user action db ≡ ok (g, r)
    → (db.group ≡ some g) × (r ≡ active_role (membership db user)) × (can r action ≡ true)
unfolding allowed Service.assert_group_visible
allowed-facts user action db h = ground arith

pub own_row-facts :
    (user : ℕ) (db : Db) {g : Group} {m : Member}
    → own_row user db ≡ ok (g, m)
    → (db.group ≡ some g) × (membership db user ≡ some m) × (is_active m.status ≡ true)
unfolding own_row Service.assert_group_visible
own_row-facts user db h = ground arith

pub visible_group-facts :
    (user : ℕ) (db : Db) {g : Group} {m : Option Member}
    → visible_group user db ≡ ok (g, m)
    → (db.group ≡ some g) × (m ≡ membership db user)
unfolding visible_group Service.assert_group_visible
visible_group-facts user db h = ground arith

-- Only an owner may transfer.
pub can-transfer : (r : Option Role) → can r transfer_ownership ≡ true → r ≡ some owner
unfolding can
can-transfer r h = ground arith

-- A caller who is let through is an active member.
pub active_caller :
    (user : ℕ) (action : GroupAction) (db : Db) {g : Group} {r : Option Role}
    → allowed user action db ≡ ok (g, r)
    → Service.has_status is_active (membership db user) ≡ true
unfolding allowed Service.assert_group_visible active_role can
active_caller user action db h = ground arith

pub membership-user_id : (u : ℕ) (db : Db) {m : Member} → membership db u ≡ some m → m.user_id ≡ u
unfolding membership
membership-user_id u db {m} e = ground (arith, find?-passes (is_user u) db.members {x = m} e)
