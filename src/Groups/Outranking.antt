-- ===== src/Groups/Outranking.antt =====
-- Who can change the row of an active member: the routes of backend/app/features/groups/router.py.
use lc_connect.Base.{
  ℕ, ◌≡◌, ◌≢◌, ◌<◌, ◌⊎◌, refl, subst, Bool, true, false, some, arith, inl, inr, ok, OnOk,
  Option-cases, Bool-cases, Result-cases, ◌==◌, if◌then◌else◌, ◌>>=◌,
}
use lc_connect.Groups.Defs.{
  owner, admin, removed, Member, Group, Db, GroupUpdate, membership, edit_member, set_status,
  set_role, is_active,
}
use lc_connect.Groups.Policies.{
  target_rank, invite, approve_request, edit_group, ban_member, remove_member, transfer_ownership,
}
use lc_connect.Groups.Service
use lc_connect.Groups.Service.{has_status}
use lc_connect.Groups.Router.{
  Request, edit, upload_avatar, delete, join, accept_invite, decline_invite, leave, approve, reject,
  invite_person, transfer, mute, change_role, remove, allowed, own_row, handle, active_role,
  announce, visible_group,
}
use lc_connect.Groups.Guards.{own_row-facts, membership-user_id}
use lc_connect.Groups.Moderation.{rank_of, moderates, moderated-rank}
use lc_connect.Groups.Standing.{
  Stands, edit_apart-Stands, announce-Stands, join_group-Stands, accept_invite-Stands,
  decline_invite-Stands, change_role-Stands, remove_member-Stands, approve_request-Stands,
  reject_request-Stands, invite_user-Stands,
}

-- The requests by which an owner gives a group up to a person, or altogether.
abbrev pub hands_over : ℕ → Request → Bool
hands_over target (transfer t) = t == target
hands_over target delete = true
hands_over target _ = false

module _ (limit user u : ℕ) (m : Member) (db : Db) (h : Stands u m db) (ne : user ≢ u) where
  own_edit-Stands :
      (f : Member → Member) {x : Member}
      → ((y : Member) → (f y).user_id ≡ y.user_id)
      → membership db user ≡ some x
      → Stands u m (edit_member x.user_id f db)
  own_edit-Stands f {x} same row =
      rw (membership-user_id user db {m = x} row) (edit_apart-Stands u user m f db ne same h)

  join-Stands :
      (g : Group)
      → OnOk (Stands u m) (Service.join_group limit g user db >>= λ r. ok (announce r.0 user r.1))
  join-Stands g = elim (Result-cases (Service.join_group limit g user db)) [
    | inl ((s, db'), e) ↦ rw e (
        announce-Stands u m s user db'
          (subst (OnOk (λ r. Stands u m r.1)) e (join_group-Stands limit u user m db h ne g)))
    | inr (x, e) ↦ rw e tt
  ]

  leave-Stands :
      {x : Member} → membership db user ≡ some x → OnOk (Stands u m) (Service.leave_group x db)
  unfolding Service.leave_group
  leave-Stands {x} row =
      ground (arith, own_edit-Stands (set_status removed) {x = x} (λ y. refl) row)

  transfer-Stands :
      (g : Group) (t : ℕ) → t ≢ u → OnOk (Stands u m) (Service.transfer_ownership g user t db)
  unfolding Service.transfer_ownership membership
  transfer-Stands g t apart = ground (
    arith,
    edit_apart-Stands u t m (set_role owner) (edit_member user (set_role admin) db) apart
        (λ x. refl) (edit_apart-Stands u user m (set_role admin) db ne (λ x. refl) h),
  )

  update_group-Stands :
      (g : Group) (changes : GroupUpdate)
      → OnOk (Stands u m) (Service.update_group limit g changes db)
  unfolding Service.update_group membership
  update_group-Stands g changes = ground (arith, h)

  handle-Stands :
      (r : Request)
      → is_active m.status ≡ true
      → moderates u r ≡ false
      → hands_over u r ≡ false
      → OnOk (Stands u m) (handle limit user r db)
  unfolding handle Service.set_mute Service.set_avatar membership
  handle-Stands (edit changes) live a b = elim (Result-cases (allowed user edit_group db)) [
    | inl ((g, r), e) ↦ rw e (update_group-Stands g changes)
    | inr (x, e) ↦ rw e tt
  ]
  handle-Stands (upload_avatar url) live a b = elim (Result-cases (allowed user edit_group db)) [
    | inl ((g, r), e) ↦ rw e h
    | inr (x, e) ↦ rw e tt
  ]
  handle-Stands delete live a b = cc
  handle-Stands join live a b = elim (Result-cases (visible_group user db)) [
    | inl ((g, r), e) ↦ rw e (join-Stands g)
    | inr (x, e) ↦ rw e tt
  ]
  handle-Stands (approve t) live a b = elim (Result-cases (allowed user approve_request db)) [
    | inl ((g, r), e) ↦ rw e (ground (arith, approve_request-Stands limit u t m db h live))
    | inr (x, e) ↦ rw e tt
  ]
  handle-Stands (reject t) live a b = elim (Result-cases (allowed user approve_request db)) [
    | inl ((g, r), e) ↦ rw e (ground (arith, reject_request-Stands limit u t m db h live))
    | inr (x, e) ↦ rw e tt
  ]
  handle-Stands (invite_person t) live a b = elim (Result-cases (allowed user invite db)) [
    | inl ((g, r), e) ↦ rw e (ground (arith, invite_user-Stands limit u t m db h live user))
    | inr (x, e) ↦ rw e tt
  ]
  handle-Stands accept_invite live a b = elim (Option-cases db.group) [
    | inl e ↦ ground (arith, e)
    | inr (g, e) ↦ ground (arith, e, accept_invite-Stands limit u user m db h ne)
  ]
  handle-Stands decline_invite live a b = elim (Option-cases db.group) [
    | inl e ↦ ground (arith, e)
    | inr (g, e) ↦ ground (arith, e, decline_invite-Stands limit u user m db h ne)
  ]
  handle-Stands leave live a b = elim (Result-cases (own_row user db)) [
    | inl ((g, x), e) ↦ rw e (let (hg, row, on) = own_row-facts user db e in leave-Stands row)
    | inr (x, e) ↦ rw e tt
  ]
  handle-Stands (mute muted) live a b = elim (Result-cases (own_row user db)) [
    | inl ((g, x), e) ↦ rw e (
        let (hg, row, on) = own_row-facts user db e in
        own_edit-Stands (Service.mute muted) (λ y. refl) row)
    | inr (x, e) ↦ rw e tt
  ]
  handle-Stands (change_role t role) live a b = elim (Result-cases (allowed user edit_group db)) [
    | inl ((g, r), e) ↦ rw e (
        let apart : t ≢ u = ground (arith, a) in
        ground (arith, change_role-Stands limit u t m db h apart r role))
    | inr (x, e) ↦ rw e tt
  ]
  handle-Stands (transfer t) live a b = elim (Result-cases (allowed user transfer_ownership db)) [
    | inl ((g, r), e) ↦ rw e (transfer-Stands g t (ground (arith, b)))
    | inr (x, e) ↦ rw e tt
  ]
  handle-Stands (remove t ban) live a b =
      elim (Result-cases (allowed user (if ban then ban_member else remove_member) db)) [
        | inl ((g, r), e) ↦ rw e (
            let apart : t ≢ u = ground (arith, a) in
            ground (arith, remove_member-Stands limit u t m db h apart r ban))
        | inr (x, e) ↦ rw e tt
      ]

-- An active member's row, the role and the status included, is changed by another person's request
-- only if the caller has a strictly higher rank than the member, where the request neither
-- transfers the group to that member nor deletes it.
pub moderation_outranks :
    (limit user target : ℕ) (r : Request) (db : Db) {db' : Db} {m : Member}
    → user ≢ target
    → membership db target ≡ some m
    → is_active m.status ≡ true
    → hands_over target r ≡ false
    → handle limit user r db ≡ ok db'
    → (membership db' target ≡ some m)
      ⊎ (target_rank m.role < rank_of (active_role (membership db user)))
moderation_outranks limit user target r db {db'} {m} ne row live kept h =
    elim (Bool-cases (moderates target r)) [
      | inl e ↦ inr (rw row at (moderated-rank limit user target r db e h))
      | inr e ↦ inl (
          subst (OnOk (Stands target m)) h
            (handle-Stands limit user target m db row ne r live e kept))
    ]
