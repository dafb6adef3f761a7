-- ===== src/Groups/Bans/Run.antt =====
-- Bans over handlers and over sequences of requests.
use lc_connect.Base.{
  ℕ, ◌≡◌, refl, true, some, List, [], ◌∷◌, arith, ok, OnOk, Option-cases, Result-cases, inl, inr,
  subst, ◌>>=◌, if◌then◌else◌,
}
use lc_connect.Groups.Defs.{
  membership, is_active, set_status, removed, Db, Group, Member, JoinStatus, joined, waiting, emit,
  edit_member, join_request,
}
use lc_connect.Groups.Policies.{
  invite, approve_request, edit_group, ban_member, remove_member, transfer_ownership,
}
use lc_connect.Groups.Service
use lc_connect.Groups.Router.{
  Request, edit, upload_avatar, delete, join, accept_invite, decline_invite, leave, approve, reject,
  invite_person, transfer, mute, change_role, remove, allowed, own_row, handle, step, run,
  tell_each, announce, admins, visible_group,
}
use lc_connect.Groups.Service.{has_status, is_banned}
use lc_connect.Groups.Bans.{Barred, BarredFrom}
use lc_connect.Groups.Bans.Requests
use lc_connect.Groups.Guards.{
  membership-user_id, active_caller, allowed-facts, own_row-facts, visible_group-facts,
}

tell_each-Barred :
    (u : ℕ) (ms : List Member) (actor : ℕ) (db : Db)
    → Barred u db
    → Barred u (tell_each ms actor db)
unfolding tell_each
tell_each-Barred u [] actor db h = h
tell_each-Barred u (m ∷ ms) actor db h =
    tell_each-Barred u ms actor (emit (join_request m.user_id actor) db) h

announce-Barred :
    (u : ℕ) (s : JoinStatus) (actor : ℕ) (db : Db) → Barred u db → Barred u (announce s actor db)
unfolding announce
announce-Barred u joined actor db h = h
announce-Barred u waiting actor db h = tell_each-Barred u (admins db) actor db h

join-Barred :
    (limit u user : ℕ) (g : Group) (db : Db)
    → db.group ≡ some g
    → Barred u db
    → OnOk (Barred u) (Service.join_group limit g user db >>= λ r. ok (announce r.0 user r.1))
join-Barred limit u user g db q h = elim (Result-cases (Service.join_group limit g user db)) [
  | inl ((s, db'), e) ↦ rw e (
      announce-Barred u s user db'
        (subst (OnOk (λ r. Barred u r.1)) e (Requests.join_group-Barred limit u user db q h)))
  | inr (x, e) ↦ rw e tt
]

-- The row that a caller edits is found under the caller's own id.
own_edit-Barred :
    (limit u user : ℕ) (db : Db) {g : Group}
    → db.group ≡ some g
    → Barred u db
    → (f : Member → Member) → ((m : Member) → (f m).user_id ≡ m.user_id)
    → {m : Member} → membership db user ≡ some m
    → is_active m.status ≡ true
    → Barred u (edit_member m.user_id f db)
own_edit-Barred limit u user db hg h f same {m} hm live =
    rw (membership-user_id user db {m = m} hm)
      (Requests.own-Barred limit u user db hg h f same hm live)

leave-Barred :
    (limit u user : ℕ) (db : Db) {g : Group}
    → db.group ≡ some g
    → Barred u db
    → {m : Member} → membership db user ≡ some m
    → is_active m.status ≡ true
    → OnOk (Barred u) (Service.leave_group m db)
unfolding Service.leave_group
leave-Barred limit u user db hg h {m} hm live =
    ground
      (arith, own_edit-Barred limit u user db hg h (set_status removed) (λ x. refl) {m = m} hm live)

pub handle-Barred :
    (limit u user : ℕ) (r : Request) (db : Db)
    → Barred u db
    → OnOk (Barred u) (handle limit user r db)
unfolding handle Service.set_mute Service.set_avatar
handle-Barred limit u user (edit changes) db h = elim (Result-cases (allowed user edit_group db)) [
  | inl ((g, r), e) ↦ rw e (
      Requests.update_group-Barred limit u user db (allowed-facts user edit_group db e).0 h changes)
  | inr (x, e) ↦ rw e tt
]
handle-Barred limit u user (upload_avatar url) db h =
    elim (Result-cases (allowed user edit_group db)) [
      | inl ((g, r), e) ↦
          rw e (subst (λ o. BarredFrom u o db.members) (allowed-facts user edit_group db e).0 h)
      | inr (x, e) ↦ rw e tt
    ]
handle-Barred limit u user delete db h = ground arith
handle-Barred limit u user join db h = elim (Result-cases (visible_group user db)) [
  | inl ((g, r), e) ↦ rw e (join-Barred limit u user g db (visible_group-facts user db e).0 h)
  | inr (x, e) ↦ rw e tt
]
handle-Barred limit u user (approve target) db h =
    elim (Result-cases (allowed user approve_request db)) [
      | inl ((g, r), e) ↦ rw e (
          ground (
            arith,
            Requests.approve_request-Barred limit u target db
                (allowed-facts user approve_request db e).0 h,
          ))
      | inr (x, e) ↦ rw e tt
    ]
handle-Barred limit u user (reject target) db h =
    elim (Result-cases (allowed user approve_request db)) [
      | inl ((g, r), e) ↦ rw e (
          ground (
            arith,
            Requests.reject_request-Barred limit u target db
                (allowed-facts user approve_request db e).0 h,
          ))
      | inr (x, e) ↦ rw e tt
    ]
handle-Barred limit u user (invite_person target) db h =
    elim (Result-cases (allowed user invite db)) [
      | inl ((g, r), e) ↦ rw e (
          ground (
            arith,
            Requests.invite_user-Barred limit u target db (allowed-facts user invite db e).0 h user,
          ))
      | inr (x, e) ↦ rw e tt
    ]
handle-Barred limit u user accept_invite db h = elim (Option-cases db.group) [
  | inl e ↦ ground (arith, e)
  | inr (g, e) ↦ ground (arith, e, Requests.accept_invite-Barred limit u user db e h)
]
handle-Barred limit u user decline_invite db h = elim (Option-cases db.group) [
  | inl e ↦ ground (arith, e)
  | inr (g, e) ↦ ground (arith, e, Requests.decline_invite-Barred limit u user db e h)
]
handle-Barred limit u user leave db h = elim (Result-cases (own_row user db)) [
  | inl ((g, m), e) ↦
      rw e
        (let (hg, hm, live) = own_row-facts user db e in leave-Barred limit u user db hg h hm live)
  | inr (x, e) ↦ rw e tt
]
handle-Barred limit u user (mute muted) db h = elim (Result-cases (own_row user db)) [
  | inl ((g, m), e) ↦ rw e (
      let (hg, hm, live) = own_row-facts user db e in
      own_edit-Barred limit u user db hg h (Service.mute muted) (λ x. refl) hm live)
  | inr (x, e) ↦ rw e tt
]
handle-Barred limit u user (change_role target role) db h =
    elim (Result-cases (allowed user edit_group db)) [
      | inl ((g, r), e) ↦ rw e (
          ground (
            arith,
            Requests.change_role-Barred limit u target db (allowed-facts user edit_group db e).0 h r
                role,
          ))
      | inr (x, e) ↦ rw e tt
    ]
handle-Barred limit u user (transfer target) db h =
    elim (Result-cases (allowed user transfer_ownership db)) [
      | inl ((g, r), e) ↦ rw e (
          let (hg, hr, granted) = allowed-facts user transfer_ownership db e in
          Requests.transfer_ownership-Barred limit u target db hg h user
            (active_caller user transfer_ownership db e))
      | inr (x, e) ↦ rw e tt
    ]
handle-Barred limit u user (remove target ban) db h =
    elim (Result-cases (allowed user (if ban then ban_member else remove_member) db)) [
      | inl ((g, r), e) ↦ rw e (
          ground (
            arith,
            Requests.remove_member-Barred limit u target db
                (allowed-facts user (if ban then ban_member else remove_member) db e).0 h r ban,
          ))
      | inr (x, e) ↦ rw e tt
    ]

step-Barred : (limit u : ℕ) (r : ℕ × Request) (db : Db) → Barred u db → Barred u (step limit r db)
unfolding step
step-Barred limit u (user, r) db h = elim (Result-cases (handle limit user r db)) [
  | inl (db', e) ↦ rw (e, step) (subst (OnOk (Barred u)) e (handle-Barred limit u user r db h))
  | inr (x, e) ↦ rw (e, step) h
]

-- Once a group has banned a person, the person's member row stays banned through any requests to the
-- group's routes by anybody, handled one after another, for as long as the group is not deleted.
pub run-Barred :
    (limit u : ℕ) (rs : List (ℕ × Request)) (db : Db) → Barred u db → Barred u (run limit rs db)
unfolding run
run-Barred limit u [] db h = h
run-Barred limit u (r ∷ rs) db h =
    run-Barred limit u rs (step limit r db) (step-Barred limit u r db h)
