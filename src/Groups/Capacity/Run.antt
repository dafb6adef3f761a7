-- ===== src/Groups/Capacity/Run.antt =====
-- The cap over handlers and over sequences of requests.
use lc_connect.Base.{
  Change, unset, ℕ, ◌≡◌, refl, Bool, true, false, some, List, [], ◌∷◌, arith, ok, OnOk,
  Result-cases, inl, inr, subst, ◌>>=◌, if◌then◌else◌, All,
}
use lc_connect.Groups.Defs.{
  Db, Group, Member, JoinStatus, GroupUpdate, joined, waiting, Event, emit, edit_member,
  active_member_count, join_request, set_role, admin, owner,
}
use lc_connect.Groups.Policies.{edit_group, ban_member, remove_member, transfer_ownership}
use lc_connect.Groups.Service
use lc_connect.Groups.Router.{
  Request, edit, upload_avatar, delete, join, accept_invite, decline_invite, leave, approve, reject,
  invite_person, transfer, mute, change_role, remove, allowed, own_row, handle, step, run,
  tell_each, announce, admins, visible_group,
}
use lc_connect.Groups.Capacity.{WithinCap, CapBy, edit-count_le}
use lc_connect.Groups.Capacity.Requests
use lc_connect.Groups.Guards.{allowed-facts}

abbrev pub is_unset : {A : Type 0} → Change A → Bool
is_unset unset = true
is_unset _ = false

-- Every request but an edit that sets `max_members`.
abbrev pub keeps_cap : Request → Bool
keeps_cap (edit changes) = is_unset changes.max_members
keeps_cap _ = true

tell_each-WithinCap :
    (limit : ℕ) (ms : List Member) (u : ℕ) (db : Db)
    → WithinCap limit db
    → WithinCap limit (tell_each ms u db)
unfolding tell_each active_member_count
tell_each-WithinCap limit [] u db h = h
tell_each-WithinCap limit (m ∷ ms) u db h =
    tell_each-WithinCap limit ms u (emit (join_request m.user_id u) db) h

announce-WithinCap :
    (limit : ℕ) (s : JoinStatus) (u : ℕ) (db : Db)
    → WithinCap limit db
    → WithinCap limit (announce s u db)
unfolding announce
announce-WithinCap limit joined u db h = h
announce-WithinCap limit waiting u db h = tell_each-WithinCap limit (admins db) u db h

join-WithinCap :
    (limit user : ℕ) (g : Group) (db : Db)
    → WithinCap limit db
    → OnOk
        (WithinCap limit)
        (Service.join_group limit g user db >>= λ r. ok (announce r.0 user r.1))
join-WithinCap limit user g db h = elim (Result-cases (Service.join_group limit g user db)) [
  | inl ((s, db'), e) ↦ rw e (
      announce-WithinCap limit s user db' (
        subst (OnOk (λ r. WithinCap limit r.1)) e
          (Requests.join_group-WithinCap limit user db h g)))
  | inr (x, e) ↦ rw e tt
]

emit-WithinCap :
    (limit : ℕ) (v : Event) (db : Db) → WithinCap limit db → WithinCap limit (emit v db)
unfolding active_member_count
emit-WithinCap limit v db h = h

transfer-WithinCap :
    (limit : ℕ) (g : Group) (user target : ℕ) (db : Db)
    → db.group ≡ some g
    → WithinCap limit db
    → OnOk (WithinCap limit) (Service.transfer_ownership g user target db)
unfolding Service.transfer_ownership edit_member active_member_count
transfer-WithinCap limit g user target db e h =
    let own = subst (λ o. CapBy limit o (active_member_count db)) e h in
    ground (
      arith,
      own,
      edit-count_le user (set_role admin) db (λ m q. q),
      edit-count_le target (set_role owner) (edit_member user (set_role admin) db) (λ m q. q),
    )

update-WithinCap :
    (limit : ℕ) (g : Group) (changes : GroupUpdate) (db : Db)
    → db.group ≡ some g
    → is_unset changes.max_members ≡ true
    → WithinCap limit db
    → OnOk (WithinCap limit) (Service.update_group limit g changes db)
unfolding Service.update_group active_member_count
update-WithinCap limit g changes db e same h =
    let own = subst (λ o. CapBy limit o (active_member_count db)) e h in ground arith

pub handle-WithinCap :
    (limit user : ℕ) (r : Request) (db : Db)
    → keeps_cap r ≡ true
    → WithinCap limit db
    → OnOk (WithinCap limit) (handle limit user r db)
unfolding handle Service.set_mute Service.set_avatar active_member_count
handle-WithinCap limit user (edit changes) db k h =
    elim (Result-cases (allowed user edit_group db)) [
      | inl ((g, r), e) ↦
          rw e (update-WithinCap limit g changes db (allowed-facts user edit_group db e).0 k h)
      | inr (x, e) ↦ rw e tt
    ]
handle-WithinCap limit user (upload_avatar url) db k h =
    elim (Result-cases (allowed user edit_group db)) [
      | inl ((g, r), e) ↦ rw e (
          subst (λ o. CapBy limit o (active_member_count db)) (allowed-facts user edit_group db e).0
            h)
      | inr (x, e) ↦ rw e tt
    ]
handle-WithinCap limit user delete db k h = ground arith
handle-WithinCap limit user join db k h = elim (Result-cases (visible_group user db)) [
  | inl ((g, r), e) ↦ rw e (join-WithinCap limit user g db h)
  | inr (x, e) ↦ rw e tt
]
handle-WithinCap limit user (approve target) db k h =
    ground (arith, Requests.approve_request-WithinCap limit target db h)
handle-WithinCap limit user (reject target) db k h =
    ground (arith, Requests.reject_request-WithinCap limit target db h)
handle-WithinCap limit user (invite_person target) db k h =
    ground (arith, Requests.invite_user-WithinCap limit target db h user)
handle-WithinCap limit user accept_invite db k h =
    ground (arith, Requests.accept_invite-WithinCap limit user db h)
handle-WithinCap limit user decline_invite db k h =
    ground (arith, Requests.decline_invite-WithinCap limit user db h)
handle-WithinCap limit user leave db k h = elim (Result-cases (own_row user db)) [
  | inl ((g, m), e) ↦ rw e (Requests.leave_group-WithinCap limit m.user_id db h m refl)
  | inr (x, e) ↦ rw e tt
]
handle-WithinCap limit user (mute muted) db k h = elim (Result-cases (own_row user db)) [
  | inl ((g, m), e) ↦
      rw e (Requests.edit_quiet limit m.user_id db h (Service.mute muted) (λ m q. q))
  | inr (x, e) ↦ rw e tt
]
handle-WithinCap limit user (change_role target role) db k h =
    elim (Result-cases (allowed user edit_group db)) [
      | inl ((g, r), e) ↦
          rw e (ground (arith, Requests.change_role-WithinCap limit target db h r role))
      | inr (x, e) ↦ rw e tt
    ]
handle-WithinCap limit user (transfer target) db k h =
    elim (Result-cases (allowed user transfer_ownership db)) [
      | inl ((g, r), e) ↦ rw e (
          transfer-WithinCap limit g user target db (allowed-facts user transfer_ownership db e).0
            h)
      | inr (x, e) ↦ rw e tt
    ]
handle-WithinCap limit user (remove target ban) db k h =
    elim (Result-cases (allowed user (if ban then ban_member else remove_member) db)) [
      | inl ((g, r), e) ↦
          rw e (ground (arith, Requests.remove_member-WithinCap limit target db h r ban))
      | inr (x, e) ↦ rw e tt
    ]

step-WithinCap :
    (limit : ℕ) (r : ℕ × Request) (db : Db)
    → keeps_cap r.1 ≡ true
    → WithinCap limit db
    → WithinCap limit (step limit r db)
unfolding step
step-WithinCap limit (user, r) db k h = elim (Result-cases (handle limit user r db)) [
  | inl (db', e) ↦
      rw (e, step) (subst (OnOk (WithinCap limit)) e (handle-WithinCap limit user r db k h))
  | inr (x, e) ↦ rw (e, step) h
]

-- While nobody sets `max_members`, no sequence of requests takes a group above its cap, the
-- smaller of its own limit and the global one.
pub run-WithinCap :
    (limit : ℕ) (rs : List (ℕ × Request)) (db : Db)
    → All (λ r. keeps_cap r.1 ≡ true) rs
    → WithinCap limit db
    → WithinCap limit (run limit rs db)
unfolding run
run-WithinCap limit [] db k h = h
run-WithinCap limit (r ∷ rs) db k h =
    run-WithinCap limit rs (step limit r db) k.1 (step-WithinCap limit r db k.0 h)
