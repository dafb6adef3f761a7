-- ===== src/Groups/Capacity/Requests.antt =====
-- Each operation of the service keeps the active members within the cap.
use lc_connect.Base.{ℕ, ◌≡◌, Bool, true, false, Option, none, some, arith, OnOk}
use lc_connect.Groups.Defs.{
  Role, member, active, requested, invited, removed, banned, Member, Group, Db, edit_member,
  add_member, set_status, set_role, is_active,
}
use lc_connect.Groups.Service
use lc_connect.Groups.Capacity.{
  WithinCap, CapBy-le, edit-count_le, edit-count_le_suc, add-count_le, add-count_le_suc,
}

module _ (limit u : ℕ) (db : Db) (h : WithinCap limit db) where
  -- An edit that activates nobody.
  pub edit_quiet :
      (f : Member → Member)
      → ((m : Member) → is_active (f m).status ≡ true → is_active m.status ≡ true)
      → WithinCap limit (edit_member u f db)
  unfolding edit_member
  edit_quiet f quiet = CapBy-le limit db.group (edit-count_le u f db quiet) h

  add_quiet : (m : Member) → is_active m.status ≡ false → WithinCap limit (add_member m db)
  unfolding add_member
  add_quiet m quiet = CapBy-le limit db.group (add-count_le m db quiet) h

  pub approve_request-WithinCap : OnOk (WithinCap limit) (Service.approve_request limit u db)
  unfolding Service.approve_request Service.reserve_capacity edit_member
  approve_request-WithinCap = ground (arith, edit-count_le_suc u (set_status active) db)

  pub accept_invite-WithinCap : OnOk (λ r. WithinCap limit r.1) (Service.accept_invite limit u db)
  unfolding Service.accept_invite Service.reserve_capacity edit_member
  accept_invite-WithinCap = ground (arith, edit-count_le_suc u (set_status active) db)

  pub reject_request-WithinCap : OnOk (WithinCap limit) (Service.reject_request u db)
  unfolding Service.reject_request
  reject_request-WithinCap = ground (arith, edit_quiet (set_status removed) (λ m e. cc))

  pub decline_invite-WithinCap : OnOk (WithinCap limit) (Service.decline_invite u db)
  unfolding Service.decline_invite
  decline_invite-WithinCap = ground (arith, edit_quiet (set_status removed) (λ m e. cc))

  pub leave_group-WithinCap :
      (m : Member) → m.user_id ≡ u → OnOk (WithinCap limit) (Service.leave_group m db)
  unfolding Service.leave_group
  leave_group-WithinCap m e = ground (arith, e, edit_quiet (set_status removed) (λ m e. cc))

  pub remove_member-WithinCap :
      (actor : Option Role) (ban : Bool)
      → OnOk (WithinCap limit) (Service.remove_member actor u ban db)
  unfolding Service.remove_member
  remove_member-WithinCap actor ban = ground (
    arith,
    edit_quiet (set_status removed) (λ m e. cc),
    edit_quiet (set_status banned) (λ m e. cc),
  )

  pub change_role-WithinCap :
      (actor : Option Role) (r : Role) → OnOk (WithinCap limit) (Service.change_role actor u r db)
  unfolding Service.change_role
  change_role-WithinCap actor r = ground (arith, edit_quiet (set_role r) (λ m e. e))

  pub invite_user-WithinCap : (by : ℕ) → OnOk (WithinCap limit) (Service.invite_user u by db)
  unfolding Service.invite_user
  invite_user-WithinCap by = ground (
    arith,
    add_quiet (Service.new_member u member invited (some by)),
    edit_quiet (Service.invite_again by) (λ m e. cc),
  )

  pub join_group-WithinCap :
      (g : Group) → OnOk (λ r. WithinCap limit r.1) (Service.join_group limit g u db)
  unfolding Service.join_group Service.reserve_capacity Service.set_member edit_member add_member
  join_group-WithinCap g = ground (
    arith,
    edit-count_le_suc u (set_status active) db,
    add-count_le_suc (Service.new_member u member active none) db,
    edit-count_le u (set_status requested) db (λ m e. cc),
    add-count_le (Service.new_member u member requested none) db,
  )
