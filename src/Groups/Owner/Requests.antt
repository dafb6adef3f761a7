-- ===== src/Groups/Owner/Requests.antt =====
-- Every request keeps the group's one owner.
use lc_connect.Base.{
  ℕ, ◌≡◌, refl, subst, Text, Bool, false, Option, none, some, arith, inl, inr, OnOk, Option-cases,
}
use lc_connect.Groups.Defs.{
  Role, member, owner, Status, active, requested, invited, removed, banned, Member, Group, Db,
  GroupUpdate, membership, set_role,
}
use lc_connect.Groups.Policies.{can_moderate}
use lc_connect.Groups.Guards.{membership-user_id}
use lc_connect.Groups.Service
use lc_connect.Groups.Router.{active_role}
use lc_connect.Groups.Owner.{
  Owned, OwnedBy, is_active_owner, edit_status-Owned, edit-Owned, add-Owned, transfer-Owned,
}

module _ (limit u : ℕ) (db : Db) (h : Owned db) where
  set_member-Owned :
      (s : Status)
      → is_active_owner (membership db u) ≡ false
      → Owned (Service.set_member (membership db u) u s db)
  unfolding Service.set_member
  set_member-Owned s other = elim (Option-cases (membership db u)) [
    | inl e ↦ rw e (add-Owned (Service.new_member u member s none) db other refl h)
    | inr (m, e) ↦ rw e (edit_status-Owned u s db other h)
  ]

  pub join_group-Owned : (g : Group) → OnOk (λ r. Owned r.1) (Service.join_group limit g u db)
  unfolding Service.join_group
  join_group-Owned g = ground (arith, set_member-Owned active, set_member-Owned requested)

  pub approve_request-Owned : OnOk Owned (Service.approve_request limit u db)
  unfolding Service.approve_request
  approve_request-Owned = ground (arith, edit_status-Owned u active db)

  pub reject_request-Owned : OnOk Owned (Service.reject_request u db)
  unfolding Service.reject_request
  reject_request-Owned = ground (arith, edit_status-Owned u removed db)

  pub accept_invite-Owned : OnOk (λ r. Owned r.1) (Service.accept_invite limit u db)
  unfolding Service.accept_invite
  accept_invite-Owned = ground (arith, edit_status-Owned u active db)

  pub decline_invite-Owned : OnOk Owned (Service.decline_invite u db)
  unfolding Service.decline_invite
  decline_invite-Owned = ground (arith, edit_status-Owned u removed db)

  pub invite_user-Owned : (by : ℕ) → OnOk Owned (Service.invite_user u by db)
  unfolding Service.invite_user
  invite_user-Owned by = ground (
    arith,
    add-Owned (Service.new_member u member invited (some by)) db,
    edit-Owned u (Service.invite_again by) db,
  )

  pub leave_group-Owned :
      {m : Member} → membership db u ≡ some m → OnOk Owned (Service.leave_group m db)
  unfolding Service.leave_group
  leave_group-Owned {m} e =
      ground (arith, membership-user_id u db e, edit_status-Owned u removed db)

  pub change_role-Owned :
      (actor : Option Role) (r : Role) → OnOk Owned (Service.change_role actor u r db)
  unfolding Service.change_role can_moderate
  change_role-Owned actor r = ground (arith, edit-Owned u (set_role r) db)

  pub remove_member-Owned :
      (actor : Option Role) (ban : Bool) → OnOk Owned (Service.remove_member actor u ban db)
  unfolding Service.remove_member can_moderate
  remove_member-Owned actor ban =
      ground (arith, edit_status-Owned u removed db, edit_status-Owned u banned db)

  pub update_group-Owned :
      (g : Group) (changes : GroupUpdate)
      → db.group ≡ some g
      → OnOk Owned (Service.update_group limit g changes db)
  unfolding Service.update_group
  update_group-Owned g changes e =
      let own = subst (λ o. OwnedBy o db.members) e h in ground (arith, own.one, own.named)

  pub transfer_ownership-Owned :
      (g : Group) (user : ℕ)
      → db.group ≡ some g
      → active_role (membership db user) ≡ some owner
      → OnOk Owned (Service.transfer_ownership g user u db)
  unfolding Service.transfer_ownership active_role
  transfer_ownership-Owned g user e role = elim (Option-cases (membership db user)) [
    | inl absent ↦ ground (arith, absent, role)
    | inr (m, hm) ↦ elim (Option-cases (membership db u)) [
      | inl absent ↦ rw absent tt
      | inr (n, hn) ↦ ground (
        arith,
        hm,
        role,
        hn,
        membership-user_id u db hn,
        transfer-Owned g user u db {m = m} {n = n} e h hm,
      )
    ]
  ]

  pub set_avatar-Owned :
      (g : Group) (url : Text) → db.group ≡ some g → Owned (Service.set_avatar g url db)
  unfolding Service.set_avatar
  set_avatar-Owned g url e =
      let own = subst (λ o. OwnedBy o db.members) e h in ground (arith, own.one, own.named)
