-- ===== src/Attendance/Closing.antt =====
-- What closing a session does to its records.
use lc_connect.Base.{
  ℕ, ◌≡◌, refl, sym, Bool, true, false, ◌&&◌, Option, none, some, List, [], ◌∷◌, arith, ◌==◌,
  if◌then◌else◌, is_some, find?, any_row, Bool-cases, Option-cases, inl, inr, ok, ℕ_discrete,
}
use lc_connect.People.{ProgramMembership}
use lc_connect.Attendance.Defs.{
  AttendanceSession, AttendanceRecord, Db, is_open, is_record, is_current_member, has_session_id,
}
use lc_connect.Attendance.Sessions.{
  absent_row, insert_record, insert_absents, write_close, close_session, closed_session,
  clear_session_challenges,
}

abbrev pub is_member : ℕ → ℕ → ProgramMembership → Bool
is_member program user m = m.user_id == user && is_current_member program m

-- The record of a student after a close, from the one before.
abbrev pub after_close : (ℕ → ℕ) → ℕ → ℕ → Bool → Option AttendanceRecord → Option AttendanceRecord
after_close new_id session user belongs (some r) = some r
after_close new_id session user true none = some (absent_row (new_id user) session user)
after_close new_id session user false none = none

-- The insert for one member, seen from any student.
insert_record-after_close :
    (new_id : ℕ → ℕ) (session other user : ℕ) (rs : List AttendanceRecord)
    → find? (is_record session user) (insert_record (absent_row (new_id other) session other) rs)
      ≡ after_close new_id session user (other == user) (find? (is_record session user) rs)
unfolding insert_record find?
insert_record-after_close new_id session other user rs = elim (ℕ_discrete other user) [
  | yes e ↦ elim (Option-cases (find? (is_record session other) rs)) [
    | inl f ↦ rw (f, sym e, f) (ground arith)
    | inr (r, f) ↦ rw (f, sym e, f) (ground arith)
  ]
  | no ne ↦ elim (Option-cases (find? (is_record session user) rs)) [
    | inl f ↦ elim (Bool-cases (is_some (find? (is_record session other) rs))) [
      | inl g ↦ ground (arith, f, g)
      | inr g ↦ ground (arith, f, g)
    ]
    | inr (r, f) ↦ elim (Bool-cases (is_some (find? (is_record session other) rs))) [
      | inl g ↦ ground (arith, f, g)
      | inr g ↦ ground (arith, f, g)
    ]
  ]
]

after_close_twice :
    (new_id : ℕ → ℕ) (session user : ℕ) (a b : Bool) (r : Option AttendanceRecord)
    → after_close new_id session user a (after_close new_id session user b r)
      ≡ after_close new_id session user (if b then true else a) r
after_close_twice new_id session user a b (some r) = refl
after_close_twice new_id session user true true none = refl
after_close_twice new_id session user true false none = refl
after_close_twice new_id session user false true none = refl
after_close_twice new_id session user false false none = refl

insert_absents-after_close :
    (new_id : ℕ → ℕ) (session program user : ℕ) (ms : List ProgramMembership)
    (rs : List AttendanceRecord)
    → find? (is_record session user) (insert_absents new_id session program ms rs)
      ≡ after_close new_id session user
          (any_row (is_member program user) ms)
          (find? (is_record session user) rs)
unfolding insert_absents
insert_absents-after_close new_id session program user [] rs = ground arith
insert_absents-after_close new_id session program user (m ∷ ms) rs =
    elim (Bool-cases (is_current_member program m)) [
      | inl e ↦ ground (
        arith,
        e,
        insert_absents-after_close new_id session program user ms
            (insert_record (absent_row (new_id m.user_id) session m.user_id) rs),
        insert_record-after_close new_id session m.user_id user rs,
        after_close_twice new_id session user (any_row (is_member program user) ms)
            (m.user_id == user) (find? (is_record session user) rs),
      )
      | inr e ↦ ground (arith, e, insert_absents-after_close new_id session program user ms rs)
    ]

-- Closing an open session that the table holds as the caller has it returns it closed; a record
-- that a student has in it stays as it is, each other active member of the program gets an
-- absent one, and nobody else gets a record.
pub close_session-records :
    (new_id : ℕ → ℕ) (now user : ℕ) (s : AttendanceSession) (db : Db)
    → is_open s.status ≡ true
    → find? (has_session_id s.id) db.sessions ≡ some s
    → ((close_session new_id now s db).0 ≡ ok (closed_session now s))
      × (find? (is_record s.id user) (close_session new_id now s db).1.records
          ≡ after_close new_id s.id user
              (any_row (is_member s.program_id user) db.memberships)
              (find? (is_record s.id user) db.records))
unfolding close_session write_close clear_session_challenges
close_session-records new_id now user s db live found =
    ground
      (arith, insert_absents-after_close new_id s.id s.program_id user db.memberships db.records)
