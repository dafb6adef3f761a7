-- ===== src/Groups/Tests.antt =====
-- A group of five people: an owner, an admin, a member, a banned and a removed admin.
use lc_connect.Base.{
  find?, count_if, update_first, filter_rows, strip, ℕ, ◌≡◌, refl, ◌<◌, ◌⊎◌, true, false, none,
  some, List, [], ◌∷◌, arith, ok, err,
}
use lc_connect.Groups.Defs.{
  edit_member, add_member, member, admin, owner, active, invited, removed, banned, Group, Db,
  JoinStatus, dropped, revoke_member, is_active, public, hidden, open_to_all, approval, GroupCreate,
  group_not_found, membership, active_member_count,
}
use lc_connect.Groups.Service
use lc_connect.Groups.Router.{
  allowed, own_row, visible_group, require, announce, tell_each, admins, Request, join, approve,
  remove, transfer, leave, handle, step, run, active_role,
}
use lc_connect.Groups.Policies.{can, can_moderate, transfer_ownership}
use lc_connect.Groups.Owner.{HasOneOwner, is_owner_row}
use lc_connect.Groups.Owner.Run.{run-HasOneOwner}
use lc_connect.Groups.Capacity.{WithinCap}
use lc_connect.Groups.Capacity.Run.{run-WithinCap}
use lc_connect.Groups.Bans.{Barred}
use lc_connect.Groups.Bans.Run.{run-Barred}
use lc_connect.Groups.Moderation.{hidden_group, rejoin-role, rank_of}
use lc_connect.Groups.Outranking.{moderation_outranks}
use lc_connect.Groups.Race.{concurrent_transfer, concurrent_ban}

abbrev payload : GroupCreate
payload = record {
  name = 67 ∷ 83 ∷ [];
  category = 99 ∷ [];
  visibility = public;
  join_policy = approval;
  description = none;
  max_members = some 3;
}

-- User 1 founds the group; 2 asks and is let in; 1 hands the group over and leaves.
abbrev requests : List (ℕ × Request)
requests = (2, join) ∷ (1, approve 2) ∷ (1, leave) ∷ (1, transfer 2) ∷ (1, leave) ∷ []

abbrev founded : Group
founded = record {
  name = 67 ∷ 83 ∷ [];
  description = none;
  avatar_url = none;
  category = 99 ∷ [];
  visibility = public;
  join_policy = approval;
  owner_id = 1;
  max_members = some 3;
}

abbrev start : Db
start = record {
  group = some founded;
  members = Service.new_member 1 owner active none ∷ [];
  matches = [];
  events = [];
}

run_members :
    (run 500 requests start).members
    ≡ Service.new_member 2 owner active none ∷ Service.new_member 1 admin removed none ∷ []
unfolding run step handle allowed own_row visible_group active_role require can can_moderate
    announce tell_each admins membership active_member_count edit_member add_member find? count_if
    update_first filter_rows Service.assert_group_visible Service.join_group Service.set_member
    Service.reserve_capacity Service.effective_member_cap Service.approve_request
    Service.leave_group Service.transfer_ownership Service.create_group strip
run_members = refl

run-HasOneOwner_example :
    HasOneOwner (record founded { owner_id = 2 }) (run 500 requests start).members
unfolding run step handle allowed own_row visible_group active_role require can can_moderate
    announce tell_each admins membership active_member_count edit_member add_member find? count_if
    update_first filter_rows Service.assert_group_visible Service.join_group Service.set_member
    Service.reserve_capacity Service.effective_member_cap Service.approve_request
    Service.leave_group Service.transfer_ownership Service.create_group strip
run-HasOneOwner_example = run-HasOneOwner 500 1 payload [] requests refl refl

run-WithinCap_example : WithinCap 500 (run 500 requests start)
unfolding active_member_count count_if Service.effective_member_cap
run-WithinCap_example =
    run-WithinCap 500 requests start (refl, (refl, (refl, (refl, (refl, tt))))) (omega arith)

-- An open group that has removed its admin 3 and banned 4.
abbrev club : Db
club = record {
  group = some (record founded { join_policy = open_to_all });
  members =
      Service.new_member 1 owner active none
      ∷ Service.new_member 3 admin removed none
      ∷ Service.new_member 4 member banned none
      ∷ Service.new_member 5 member active none
      ∷ [];
  matches = [];
  events = [];
}

run-Barred_example : Barred 4 (run 500 ((4, join) ∷ (1, remove 4 false) ∷ []) club)
unfolding find?
run-Barred_example = run-Barred 500 4 ((4, join) ∷ (1, remove 4 false) ∷ []) club refl

-- The club once its owner has banned 5.
abbrev without_5 : Db
without_5 = record club {
  members =
      Service.new_member 1 owner active none
      ∷ Service.new_member 3 admin removed none
      ∷ Service.new_member 4 member banned none
      ∷ Service.new_member 5 member banned none
      ∷ [];
  events = dropped 5 1 ∷ revoke_member 5 ∷ [];
}

moderation_outranks_example :
    (membership without_5 5 ≡ some (Service.new_member 5 member active none))
    ⊎ (1 < rank_of (active_role (membership club 1)))
unfolding run step handle allowed own_row visible_group active_role require can can_moderate
    announce tell_each admins membership active_member_count edit_member add_member find? count_if
    update_first filter_rows Service.assert_group_visible Service.join_group Service.set_member
    Service.reserve_capacity Service.effective_member_cap Service.approve_request
    Service.leave_group Service.remove_member Service.transfer_ownership Service.create_group strip
moderation_outranks_example =
    moderation_outranks 500 1 5 (remove 5 true) club {db' = without_5} (omega arith) refl refl refl
      refl

abbrev secret : Db
secret = record club { group = some (record founded { visibility = hidden }) }

hidden_group_example : handle 500 3 join secret ≡ err group_not_found
unfolding membership find?
hidden_group_example = hidden_group 500 3 join secret refl refl refl refl

-- The club before and after the owner removes its admin 3.
abbrev open_club : Group
open_club = record founded { join_policy = open_to_all; max_members = some 5 }

abbrev with_3 : Db
with_3 = record club {
  group = some open_club;
  members =
      Service.new_member 1 owner active none
      ∷ Service.new_member 3 admin active none
      ∷ Service.new_member 5 member active none
      ∷ Service.new_member 6 member invited (some 1)
      ∷ [];
}

abbrev without_3 : Db
without_3 = record with_3 {
  members =
      Service.new_member 1 owner active none
      ∷ Service.new_member 3 admin removed none
      ∷ Service.new_member 5 member active none
      ∷ Service.new_member 6 member invited (some 1)
      ∷ [];
  events = dropped 3 1 ∷ revoke_member 3 ∷ [];
}

rejoin-role_example :
    (db' : Db) × (handle 500 3 join without_3 ≡ ok db')
    × (membership db' 3 ≡ some (Service.new_member 3 admin active none))
unfolding run step handle allowed own_row visible_group active_role require can can_moderate
    announce tell_each admins membership active_member_count edit_member add_member find? count_if
    update_first filter_rows Service.assert_group_visible Service.join_group Service.set_member
    Service.reserve_capacity Service.effective_member_cap Service.approve_request
    Service.leave_group Service.remove_member Service.transfer_ownership Service.create_group strip
rejoin-role_example = rejoin-role 500 1 3 with_3 without_3 refl refl refl refl refl (omega arith)

with_3-HasOneOwner : HasOneOwner open_club with_3.members
unfolding count_if find?
with_3-HasOneOwner = record { one = refl; named = refl }

concurrent_transfer_example :
    (allowed 1 transfer_ownership with_3 ≡ ok (open_club, some owner))
    × (Service.check_transfer 1 3 with_3 ≡ ok tt)
    × (Service.check_transfer 1 5 with_3 ≡ ok tt)
    × (count_if is_owner_row
          (Service.write_transfer open_club 1 5
            (Service.write_transfer open_club 1 3 with_3)).members
        ≡ 2)
unfolding membership find?
concurrent_transfer_example =
    concurrent_transfer 3 5 with_3 {m = Service.new_member 3 admin active none}
      {n = Service.new_member 5 member active none} refl with_3-HasOneOwner refl refl refl refl
      (omega arith) (omega arith) (omega arith)

-- The club once its owner has banned 6.
abbrev without_6 : Db
without_6 = record with_3 {
  members =
      Service.new_member 1 owner active none
      ∷ Service.new_member 3 admin active none
      ∷ Service.new_member 5 member active none
      ∷ Service.new_member 6 member banned (some 1)
      ∷ [];
  events = dropped 6 1 ∷ revoke_member 6 ∷ [];
}

concurrent_ban_example :
    (Service.has_status Service.is_banned (membership without_6 6) ≡ true)
    × (r : JoinStatus × Db) × (Service.take_invite 500 6 without_6 ≡ ok r)
    × (Service.has_status is_active (membership r.1 6) ≡ true)
unfolding run step handle allowed own_row visible_group active_role require can can_moderate
    announce tell_each admins membership active_member_count edit_member add_member find? count_if
    update_first filter_rows Service.assert_group_visible Service.join_group Service.set_member
    Service.reserve_capacity Service.effective_member_cap Service.approve_request
    Service.leave_group Service.remove_member Service.transfer_ownership Service.create_group strip
concurrent_ban_example = concurrent_ban 500 6 1 with_3 without_6 refl refl refl
