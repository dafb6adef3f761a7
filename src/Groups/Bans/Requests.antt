-- ===== src/Groups/Bans/Requests.antt =====
-- Each operation of the service leaves a banned member's row alone.
use lc_connect.Base.{
  ℕ, ◌≡◌, ◌≢◌, refl, subst, Bool, true, false, Option, none, some, arith, inl, inr, OnOk,
  Option-cases, Bool-cases,
}
use lc_connect.Groups.Defs.{
  Role, member, owner, admin, Status, active, requested, invited, removed, banned, Member, Group,
  Db, GroupUpdate, membership, edit_member, set_status, set_role, is_active,
}
use lc_connect.Groups.Service
use lc_connect.Groups.Service.{has_status, is_banned}
use lc_connect.Groups.Bans.{
  Barred, BarredFrom, edit-Barred, edit_apart-Barred, add-Barred, not-Barred,
}

module _ (limit u v : ℕ) (db : Db) {g : Group} (e : db.group ≡ some g) (h : Barred u db) where
  set_member-Barred :
      (s : Status)
      → has_status is_banned (membership db v) ≡ false
      → Barred u (Service.set_member (membership db v) v s db)
  unfolding Service.set_member
  set_member-Barred s free = elim (Option-cases (membership db v)) [
    | inl q ↦ rw q (add-Barred u (Service.new_member v member s none) db e free h)
    | inr (m, q) ↦ rw q (edit-Barred u v (set_status s) db e free (λ m. refl) h)
  ]

  status-Barred :
      (s : Status)
      → has_status is_banned (membership db v) ≡ false
      → Barred u (edit_member v (set_status s) db)
  status-Barred s free = edit-Barred u v (set_status s) db e free (λ m. refl) h

  pub join_group-Barred : OnOk (λ r. Barred u r.1) (Service.join_group limit g v db)
  unfolding Service.join_group
  join_group-Barred = ground (arith, set_member-Barred active, set_member-Barred requested)

  pub approve_request-Barred : OnOk (Barred u) (Service.approve_request limit v db)
  unfolding Service.approve_request
  approve_request-Barred = ground (arith, status-Barred active)

  pub reject_request-Barred : OnOk (Barred u) (Service.reject_request v db)
  unfolding Service.reject_request
  reject_request-Barred = ground (arith, status-Barred removed)

  pub decline_invite-Barred : OnOk (Barred u) (Service.decline_invite v db)
  unfolding Service.decline_invite
  decline_invite-Barred = ground (arith, status-Barred removed)

  pub accept_invite-Barred : OnOk (λ r. Barred u r.1) (Service.accept_invite limit v db)
  unfolding Service.accept_invite
  accept_invite-Barred = ground (arith, status-Barred active)

  pub invite_user-Barred : (by : ℕ) → OnOk (Barred u) (Service.invite_user v by db)
  unfolding Service.invite_user
  invite_user-Barred by = ground (
    arith,
    add-Barred u (Service.new_member v member invited (some by)) db e,
    edit-Barred u v (Service.invite_again by) db e,
  )

  -- The caller's own row, which is active.
  pub own-Barred :
      (f : Member → Member)
      → ((m : Member) → (f m).user_id ≡ m.user_id)
      → {m : Member} → membership db v ≡ some m
      → is_active m.status ≡ true
      → Barred u (edit_member v f db)
  own-Barred f same {m} q live = edit-Barred u v f db e (ground (arith, q, live)) same h

  pub change_role-Barred :
      (actor : Option Role) (r : Role) → OnOk (Barred u) (Service.change_role actor v r db)
  unfolding Service.change_role
  change_role-Barred actor r = ground (arith, edit-Barred u v (set_role r) db e)

  pub remove_member-Barred :
      (actor : Option Role) (ban : Bool) → OnOk (Barred u) (Service.remove_member actor v ban db)
  unfolding Service.remove_member
  remove_member-Barred actor ban = ground (arith, status-Barred removed, status-Barred banned)

  pub update_group-Barred :
      (changes : GroupUpdate) → OnOk (Barred u) (Service.update_group limit g changes db)
  unfolding Service.update_group
  update_group-Barred changes =
      let barred = subst (λ o. BarredFrom u o db.members) e h in ground (arith, barred)

  pub transfer_ownership-Barred :
      (user : ℕ)
      → has_status is_active (membership db user) ≡ true
      → OnOk (Barred u) (Service.transfer_ownership g user v db)
  unfolding Service.transfer_ownership edit_member
  transfer_ownership-Barred user live = elim (Bool-cases (has_status is_active (membership db v))) [
    | inl here ↦
        let demoted =
          edit-Barred u user (set_role admin) db e (ground (arith, live)) (λ m. refl) h in
        let apart : v ≢ u = not-Barred u v db e (ground (arith, here)) h in
        let promoted =
          edit_apart-Barred u v (set_role owner) (edit_member user (set_role admin) db) apart
            (λ m. refl) demoted in
        let barred =
          subst
            (λ o.
              BarredFrom u o
                (edit_member v (set_role owner) (edit_member user (set_role admin) db)).members)
            e promoted in
        ground (arith, barred)
    | inr absent ↦ ground (arith, absent)
  ]
