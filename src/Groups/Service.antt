-- ===== src/Groups/Service.antt =====
-- backend/app/features/groups/service.py: create, join, invite, leave, moderate. A function takes the
-- database and returns it as it is when the session flushes; a raise discards the session. It is one
-- request with no other between its reads and its writes. The program does not ensure that: joining
-- and inviting lock the group's row first, approving and accepting only after they have read the
-- member's row, and the other requests lock nothing. Accepting and transferring are also given as
-- their two halves, which Groups/Race puts in another order. `limit` is
-- `settings.group_max_members`.
use lc_connect.Base.{
  Change, unset, null, set, change_nullable, ℕ, Bool, true, false, not, Option, none, some, List,
  [], ◌∷◌, ◌==◌, leb, ltb, if◌then◌else◌, min, Result, ok, err, ◌>>=◌, ◌>>◌, raise_if, or_raise,
  Text, strip, ◌&&◌,
}
use lc_connect.Social.{Match, users_are_connected}
use lc_connect.Groups.Defs.{
  Role, member, admin, owner, Status, active, requested, invited, removed, banned, Visibility,
  hidden, JoinPolicy, open_to_all, approval, invite_only, Member, Group, Db, Error, GroupUpdate,
  GroupCreate, JoinStatus, joined, waiting, is_active, membership, active_member_count, edit_member,
  add_member, set_status, set_role, group_not_found, too_many_members, cannot_join, already_member,
  invite_only_group, group_full, no_pending_request, no_pending_invite, only_connections,
  user_banned, transfer_first, bad_role, member_not_found, cannot_change, already_owner,
  cannot_moderate, attribute_error, not_null_violation, multiple_results, no_result,
}
use lc_connect.Groups.Policies.{can_moderate, is_owner_role}

abbrev pub is_hidden : Visibility → Bool
is_hidden hidden = true
is_hidden _ = false

abbrev pub is_active_member : Option Member → Bool
is_active_member none = false
is_active_member (some m) = is_active m.status

unfoldable pub assert_group_visible : Group → Option Member → Result Error (Unit {0})
assert_group_visible group viewer =
    raise_if (is_hidden group.visibility && not (is_active_member viewer)) group_not_found

unfoldable pub validate_max_members : ℕ → Option ℕ → Result Error (Unit {0})
validate_max_members limit none = ok tt
validate_max_members limit (some n) = raise_if (ltb limit n) too_many_members

abbrev pub new_member : ℕ → Role → Status → Option ℕ → Member
new_member user role status invited_by = record {
  user_id = user;
  role = role;
  status = status;
  invited_by = invited_by;
  muted = false;
}

unfoldable pub create_group : ℕ → ℕ → GroupCreate → List Match → Result Error Db
unfolding validate_max_members
create_group limit owner_id payload matches = do
  validate_max_members limit payload.max_members
  ok (record {
    group = some (record {
      name = strip payload.name;
      description = payload.description;
      avatar_url = none;
      category = payload.category;
      visibility = payload.visibility;
      join_policy = payload.join_policy;
      owner_id = owner_id;
      max_members = payload.max_members;
    });
    members = new_member owner_id owner active none ∷ [];
    matches = matches;
    events = [];
  })

unfoldable pub effective_member_cap : ℕ → Option ℕ → ℕ
effective_member_cap limit none = limit
effective_member_cap limit (some n) = min n limit

-- Reads the group's row again under its lock.
unfoldable pub reserve_capacity : ℕ → Db → Result Error (Unit {0})
reserve_capacity limit db = do
  locked ← or_raise db.group no_result
  raise_if (leb (effective_member_cap limit locked.max_members) (active_member_count db)) group_full

unfoldable pub set_member : Option Member → ℕ → Status → Db → Db
set_member none user status db = add_member (new_member user member status none) db
set_member (some existing) user status db = edit_member user (set_status status) db

abbrev pub has_status : (Status → Bool) → Option Member → Bool
has_status p none = false
has_status p (some m) = p m.status

abbrev pub is_banned : Status → Bool
is_banned banned = true
is_banned _ = false

abbrev pub is_requested : Status → Bool
is_requested requested = true
is_requested _ = false

abbrev pub is_invited : Status → Bool
is_invited invited = true
is_invited _ = false

-- The part of `join_group` that depends on the join policy.
unfoldable pub join_by_policy :
    ℕ → JoinPolicy → Option Member → ℕ → Db → Result Error (JoinStatus × Db)
join_by_policy limit invite_only existing user db = err invite_only_group
join_by_policy limit open_to_all existing user db = do
  reserve_capacity limit db
  ok (joined, set_member existing user active db)
join_by_policy limit approval existing user db = ok (waiting, set_member existing user requested db)

unfoldable pub join_group : ℕ → Group → ℕ → Db → Result Error (JoinStatus × Db)
unfolding join_by_policy
join_group limit group user db = do
  let existing = membership db user
  raise_if (has_status is_banned existing) cannot_join
  raise_if (has_status is_active existing) already_member
  join_by_policy limit group.join_policy existing user db

unfoldable pub approve_request : ℕ → ℕ → Db → Result Error Db
approve_request limit target db = do
  raise_if (not (has_status is_requested (membership db target))) no_pending_request
  reserve_capacity limit db
  ok (edit_member target (set_status active) db)

unfoldable pub reject_request : ℕ → Db → Result Error Db
reject_request target db = do
  raise_if (not (has_status is_requested (membership db target))) no_pending_request
  ok (edit_member target (set_status removed) db)

abbrev pub invite_again : ℕ → Member → Member
invite_again by m = record m { status = invited; invited_by = some by }

unfoldable pub write_invite : Option Member → ℕ → ℕ → Db → Db
write_invite none target by db = add_member (new_member target member invited (some by)) db
write_invite (some existing) target by db = edit_member target (invite_again by) db

unfoldable pub invite_user : ℕ → ℕ → Db → Result Error Db
unfolding write_invite
invite_user target by db = do
  connected ← users_are_connected multiple_results db.matches by target
  raise_if (not connected) only_connections
  let existing = membership db target
  raise_if (has_status is_active existing) already_member
  raise_if (has_status is_banned existing) user_banned
  ok (write_invite existing target by db)

-- The halves of `accept_invite`: what is read before the lock, and what follows under it.
abbrev pub check_invite : ℕ → Db → Result Error (Unit {0})
check_invite user db = raise_if (not (has_status is_invited (membership db user))) no_pending_invite

abbrev pub take_invite : ℕ → ℕ → Db → Result Error (JoinStatus × Db)
take_invite limit user db = do
  reserve_capacity limit db
  ok (joined, edit_member user (set_status active) db)

unfoldable pub accept_invite : ℕ → ℕ → Db → Result Error (JoinStatus × Db)
accept_invite limit user db = do check_invite user db; take_invite limit user db

unfoldable pub decline_invite : ℕ → Db → Result Error Db
decline_invite user db = do
  raise_if (not (has_status is_invited (membership db user))) no_pending_invite
  ok (edit_member user (set_status removed) db)

unfoldable pub leave_group : Member → Db → Result Error Db
leave_group leaver db = do
  raise_if (is_owner_role leaver.role) transfer_first
  ok (edit_member leaver.user_id (set_status removed) db)

abbrev pub mute : Bool → Member → Member
mute muted m = record m { muted = muted }

unfoldable pub set_mute : Member → Bool → Db → Db
set_mute m muted db = edit_member m.user_id (mute muted) db

-- A column that may not: the commit fails on `null`.
abbrev pub change_required : {A : Type 0} → Change A → A → Result Error A
change_required unset old = ok old
change_required null old = err not_null_violation
change_required (set a) old = ok a

-- `changes['name'].strip()` is an `AttributeError` on `null`.
unfoldable pub change_name : Change Text → Text → Result Error Text
change_name unset old = ok old
change_name null old = err attribute_error
change_name (set a) old = ok (strip a)

unfoldable pub update_group : ℕ → Group → GroupUpdate → Db → Result Error Db
unfolding change_name validate_max_members
update_group limit group changes db = do
  validate_max_members limit (change_nullable changes.max_members none)
  name ← change_name changes.name group.name
  category ← change_required changes.category group.category
  visibility ← change_required changes.visibility group.visibility
  join_policy ← change_required changes.join_policy group.join_policy
  ok (record db {
    group = some (record group {
      name = name;
      description = change_nullable changes.description group.description;
      category = category;
      visibility = visibility;
      join_policy = join_policy;
      max_members = change_nullable changes.max_members group.max_members;
    });
  })

unfoldable pub set_avatar : Group → Text → Db → Db
set_avatar group url db = record db { group = some (record group { avatar_url = some url }) }

abbrev pub is_assignable : Role → Bool
is_assignable admin = true
is_assignable member = true
is_assignable _ = false

-- The active row of the person acted on.
unfoldable pub active_target : ℕ → Db → Result Error Member
active_target target db = do
  row ← or_raise (membership db target) member_not_found
  raise_if (not (is_active row.status)) member_not_found
  ok row

unfoldable pub change_role : Option Role → ℕ → Role → Db → Result Error Db
unfolding active_target
change_role actor_role target new_role db = do
  raise_if (not (is_assignable new_role)) bad_role
  row ← active_target target db
  raise_if (not (can_moderate actor_role row.role)) cannot_change
  ok (edit_member target (set_role new_role) db)

-- The halves of `transfer_ownership`: its reads, and the three columns that the commit writes.
abbrev pub check_transfer : ℕ → ℕ → Db → Result Error (Unit {0})
check_transfer old_owner new_owner db = do
  row ← active_target new_owner db
  raise_if (row.user_id == old_owner) already_owner

abbrev pub write_transfer : Group → ℕ → ℕ → Db → Db
write_transfer group old_owner new_owner db =
    let demoted = edit_member old_owner (set_role admin) db in
    let promoted = edit_member new_owner (set_role owner) demoted in
    record promoted { group = some (record group { owner_id = new_owner }) }

unfoldable pub transfer_ownership : Group → ℕ → ℕ → Db → Result Error Db
unfolding active_target
transfer_ownership group old_owner new_owner db = do
  check_transfer old_owner new_owner db
  ok (write_transfer group old_owner new_owner db)

abbrev pub is_removable : Status → Bool
is_removable active = true
is_removable requested = true
is_removable invited = true
is_removable _ = false

unfoldable pub remove_member : Option Role → ℕ → Bool → Db → Result Error Db
remove_member actor_role target ban db = do
  row ← or_raise (membership db target) member_not_found
  raise_if (not (is_removable row.status)) member_not_found
  raise_if (not (can_moderate actor_role row.role)) cannot_moderate
  ok (edit_member target (set_status (if ban then banned else removed)) db)
