-- ===== src/Groups/Owner/Run.antt =====
-- The invariant over handlers and over sequences of requests.
use lc_connect.Base.{
  ℕ, ◌≡◌, some, List, [], ◌∷◌, arith, ok, OnOk, Result-cases, inl, inr, sym, ◌∙◌, subst, ◌>>=◌,
  count_if, find?, if◌then◌else◌,
}
use lc_connect.Social.{Match}
use lc_connect.Groups.Defs.{
  edit_member, Group, Db, GroupCreate, JoinStatus, joined, waiting, Member, emit, join_request,
}
use lc_connect.Groups.Policies.{edit_group, ban_member, remove_member, transfer_ownership}
use lc_connect.Groups.Service
use lc_connect.Groups.Router.{
  Request, edit, upload_avatar, delete, join, accept_invite, decline_invite, leave, approve, reject,
  invite_person, transfer, mute, change_role, remove, allowed, own_row, handle, step, run,
  tell_each, announce, admins, visible_group,
}
use lc_connect.Groups.Owner.{HasOneOwner, OwnedBy, Owned, mute-Owned}
use lc_connect.Groups.Owner.Requests
use lc_connect.Groups.Guards.{allowed-facts, own_row-facts, can-transfer}

tell_each-Owned : (ms : List Member) (u : ℕ) (db : Db) → Owned db → Owned (tell_each ms u db)
unfolding tell_each
tell_each-Owned [] u db h = h
tell_each-Owned (m ∷ ms) u db h = tell_each-Owned ms u (emit (join_request m.user_id u) db) h

announce-Owned : (s : JoinStatus) (u : ℕ) (db : Db) → Owned db → Owned (announce s u db)
unfolding announce
announce-Owned joined u db h = h
announce-Owned waiting u db h = tell_each-Owned (admins db) u db h

join-Owned :
    (limit user : ℕ) (g : Group) (db : Db)
    → Owned db
    → OnOk Owned (Service.join_group limit g user db >>= λ r. ok (announce r.0 user r.1))
join-Owned limit user g db h = elim (Result-cases (Service.join_group limit g user db)) [
  | inl ((s, db'), e) ↦ rw e (
      announce-Owned s user db'
        (subst (OnOk (λ r. Owned r.1)) e (Requests.join_group-Owned limit user db h g)))
  | inr (x, e) ↦ rw e tt
]

-- Each handler, where it succeeds, keeps the one owner.
pub handle-Owned :
    (limit user : ℕ) (r : Request) (db : Db) → Owned db → OnOk Owned (handle limit user r db)
unfolding handle Service.set_mute edit_member
handle-Owned limit user (edit changes) db h = elim (Result-cases (allowed user edit_group db)) [
  | inl ((g, r), e) ↦
      rw e (
        Requests.update_group-Owned limit user db h g changes
          (allowed-facts user edit_group db e).0)
  | inr (x, e) ↦ rw e tt
]
handle-Owned limit user (upload_avatar url) db h =
    elim (Result-cases (allowed user edit_group db)) [
      | inl ((g, r), e) ↦
          rw e
            (Requests.set_avatar-Owned limit user db h g url (allowed-facts user edit_group db e).0)
      | inr (x, e) ↦ rw e tt
    ]
handle-Owned limit user delete db h = ground arith
handle-Owned limit user join db h = elim (Result-cases (visible_group user db)) [
  | inl ((g, r), e) ↦ rw e (join-Owned limit user g db h)
  | inr (x, e) ↦ rw e tt
]
handle-Owned limit user (approve target) db h =
    ground (arith, Requests.approve_request-Owned limit target db h)
handle-Owned limit user (reject target) db h =
    ground (arith, Requests.reject_request-Owned limit target db h)
handle-Owned limit user (invite_person target) db h =
    ground (arith, Requests.invite_user-Owned limit target db h user)
handle-Owned limit user accept_invite db h =
    ground (arith, Requests.accept_invite-Owned limit user db h)
handle-Owned limit user decline_invite db h =
    ground (arith, Requests.decline_invite-Owned limit user db h)
handle-Owned limit user leave db h = elim (Result-cases (own_row user db)) [
  | inl ((g, m), e) ↦ rw e (Requests.leave_group-Owned limit user db h (own_row-facts user db e).1)
  | inr (x, e) ↦ rw e tt
]
handle-Owned limit user (mute muted) db h = elim (Result-cases (own_row user db)) [
  | inl ((g, m), e) ↦ rw e (mute-Owned m.user_id muted db h)
  | inr (x, e) ↦ rw e tt
]
handle-Owned limit user (change_role target role) db h =
    elim (Result-cases (allowed user edit_group db)) [
      | inl ((g, r), e) ↦ rw e (ground (arith, Requests.change_role-Owned limit target db h r role))
      | inr (x, e) ↦ rw e tt
    ]
handle-Owned limit user (transfer target) db h =
    elim (Result-cases (allowed user transfer_ownership db)) [
      | inl ((g, r), e) ↦
          let (hg, hr, granted) = allowed-facts user transfer_ownership db e in
          rw e (
            Requests.transfer_ownership-Owned limit target db h g user hg
              (sym hr ∙ can-transfer r granted))
      | inr (x, e) ↦ rw e tt
    ]
handle-Owned limit user (remove target ban) db h =
    elim (Result-cases (allowed user (if ban then ban_member else remove_member) db)) [
      | inl ((g, r), e) ↦
          rw e (ground (arith, Requests.remove_member-Owned limit target db h r ban))
      | inr (x, e) ↦ rw e tt
    ]

step-Owned : (limit : ℕ) (r : ℕ × Request) (db : Db) → Owned db → Owned (step limit r db)
unfolding step
step-Owned limit (user, r) db h = elim (Result-cases (handle limit user r db)) [
  | inl (db', e) ↦ rw (e, step) (subst (OnOk Owned) e (handle-Owned limit user r db h))
  | inr (x, e) ↦ rw (e, step) h
]

pub run-Owned : (limit : ℕ) (rs : List (ℕ × Request)) (db : Db) → Owned db → Owned (run limit rs db)
unfolding run
run-Owned limit [] db h = h
run-Owned limit (r ∷ rs) db h = run-Owned limit rs (step limit r db) (step-Owned limit r db h)

create_group-Owned :
    (limit owner : ℕ) (payload : GroupCreate) (matches : List Match)
    → OnOk Owned (Service.create_group limit owner payload matches)
unfolding Service.create_group count_if find?
create_group-Owned limit owner payload matches = ground arith

-- From its creation on, through any requests to the group's routes by anybody, handled one after
-- another, a group that is not deleted has exactly one member row with the owner's role; that
-- member is active and is the one `owner_id` names.
pub run-HasOneOwner :
    (limit owner : ℕ) (payload : GroupCreate) (matches : List Match) (rs : List (ℕ × Request))
    {start : Db} {g : Group}
    → Service.create_group limit owner payload matches ≡ ok start
    → (run limit rs start).group ≡ some g
    → HasOneOwner g (run limit rs start).members
run-HasOneOwner limit owner payload matches rs {start} {g} created e =
    subst (λ o. OwnedBy o (run limit rs start).members) e
      (run-Owned limit rs start
        (subst (OnOk Owned) created (create_group-Owned limit owner payload matches)))
