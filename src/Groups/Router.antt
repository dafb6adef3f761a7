-- ===== src/Groups/Router.antt =====
-- backend/app/features/groups/router.py: one function for each handler that changes state. A raised
-- error leaves the database as it was, since only the end of a handler commits.
use lc_connect.Base.{
  ℕ, Bool, true, false, not, Option, none, some, List, [], ◌∷◌, if◌then◌else◌, Result, ok, err,
  ◌>>=◌, ◌>>◌, raise_if, or_raise, Text, filter_rows, ◌&&◌,
}
use lc_connect.Groups.Defs.{
  Role, admin, owner, Member, Group, Db, Error, GroupUpdate, JoinStatus, joined, waiting,
  membership, emit, is_active, group_not_found, not_allowed, not_a_member, join_request, approved,
  rejected, invitation, made_admin, removed_admin, dropped, revoke_member, conversation_muted,
}
use lc_connect.Groups.Policies.{
  GroupAction, can, invite, approve_request, edit_group, delete_group, transfer_ownership,
  remove_member, ban_member,
}
use lc_connect.Groups.Service

abbrev pub load_group : Db → Result Error Group
load_group db = or_raise db.group group_not_found

-- The group and the caller's row.
unfoldable pub visible_group : ℕ → Db → Result Error (Group × Option Member)
visible_group user db = do
  group ← load_group db
  let row = membership db user
  Service.assert_group_visible group row
  ok (group, row)

unfoldable pub active_role : Option Member → Option Role
active_role none = none
active_role (some m) = if is_active m.status then some m.role else none

unfoldable pub require : Option Member → GroupAction → Result Error (Unit {0})
require row action = raise_if (not (can (active_role row) action)) not_allowed

abbrev pub is_admin_role : Role → Bool
is_admin_role admin = true
is_admin_role owner = true
is_admin_role _ = false

abbrev pub is_admin : Role → Bool
is_admin admin = true
is_admin _ = false

-- `admin_ids`: who is told of a request.
unfoldable pub admins : Db → List Member
admins db = filter_rows (λ m. is_active m.status && is_admin_role m.role) db.members

unfoldable pub tell_each : List Member → ℕ → Db → Db
tell_each [] actor db = db
tell_each (m ∷ ms) actor db = tell_each ms actor (emit (join_request m.user_id actor) db)

-- An approval group tells its admins that someone is waiting.
unfoldable pub announce : JoinStatus → ℕ → Db → Db
announce joined actor db = db
announce waiting actor db = tell_each (admins db) actor db

-- The body of one request, and who sends it.
pub data Request : Type 0 where
  edit : GroupUpdate → Request
  upload_avatar : Text → Request
  delete join accept_invite decline_invite leave : Request
  approve reject invite_person transfer : ℕ → Request
  mute : Bool → Request
  change_role : ℕ → Role → Request
  remove : ℕ → Bool → Request

-- The row of a caller who must be an active member.
unfoldable pub own_row : ℕ → Db → Result Error (Group × Member)
unfolding visible_group
own_row user db = do
  (group, row) ← visible_group user db
  m ← or_raise row not_a_member
  raise_if (not (is_active m.status)) not_a_member
  ok (group, m)

-- The caller's group and role, where the role allows the action.
unfoldable pub allowed : ℕ → GroupAction → Db → Result Error (Group × Option Role)
unfolding visible_group require
allowed user action db = do
  (group, row) ← visible_group user db
  require row action
  ok (group, active_role row)

unfoldable pub handle : ℕ → ℕ → Request → Db → Result Error Db
handle limit user (edit changes) db = do
  (group, role) ← allowed user edit_group db
  Service.update_group limit group changes db
handle limit user (upload_avatar url) db = do
  (group, role) ← allowed user edit_group db
  ok (Service.set_avatar group url db)
handle limit user delete db = do
  (group, role) ← allowed user delete_group db
  ok (record db { group = none; members = [] })
handle limit user join db = do
  (group, row) ← visible_group user db
  (status, db') ← Service.join_group limit group user db
  ok (announce status user db')
handle limit user (approve target) db = do
  (group, role) ← allowed user approve_request db
  db' ← Service.approve_request limit target db
  ok (emit (approved target user) db')
handle limit user (reject target) db = do
  (group, role) ← allowed user approve_request db
  db' ← Service.reject_request target db
  ok (emit (rejected target user) db')
handle limit user (invite_person target) db = do
  (group, role) ← allowed user invite db
  db' ← Service.invite_user target user db
  ok (emit (invitation target user) db')
handle limit user accept_invite db = do
  group ← load_group db
  (status, db') ← Service.accept_invite limit user db
  ok db'
handle limit user decline_invite db = do group ← load_group db; Service.decline_invite user db
handle limit user leave db = do (group, m) ← own_row user db; Service.leave_group m db
handle limit user (mute muted) db = do
  (group, m) ← own_row user db
  ok (emit (conversation_muted user muted) (Service.set_mute m muted db))
handle limit user (change_role target role) db = do
  (group, actor_role) ← allowed user edit_group db
  db' ← Service.change_role actor_role target role db
  ok (emit (if is_admin role then made_admin target user else removed_admin target user) db')
handle limit user (transfer target) db = do
  (group, role) ← allowed user transfer_ownership db
  Service.transfer_ownership group user target db
handle limit user (remove target ban) db = do
  (group, actor_role) ← allowed user (if ban then ban_member else remove_member) db
  db' ← Service.remove_member actor_role target ban db
  ok (emit (dropped target user) (emit (revoke_member target) db'))

-- What the database holds after a request, which may have failed.
unfoldable pub step : ℕ → ℕ × Request → Db → Db
step limit (user, request) db = elim (handle limit user request db) [ ok db' ↦ db' | err e ↦ db ]

-- A sequence of requests that are handled one after another.
unfoldable pub run : ℕ → List (ℕ × Request) → Db → Db
run limit [] db = db
run limit (r ∷ rs) db = run limit rs (step limit r db)
