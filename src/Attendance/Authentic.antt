-- ===== src/Attendance/Authentic.antt =====
-- Who is recorded by a check-in, what a correction leaves behind, and the window of a new session.
use lc_connect.Base.{
  ℕ, ◌+◌, ◌*◌, ◌≤◌, ◌≡◌, sym, subst, Bool, true, not, Option, some, ◌∷◌, arith, if◌then◌else◌, ok,
  Text, strip, find?, find?-passes, find?-update_first_self, update_first, Bool-cases, Option-cases,
  Result-cases, inl, inr,
}
use lc_connect.Attendance.Defs.{
  AttendanceSession, AttendanceRecord, RecordStatus, Db, Step, ◌>>=◌, ◌>>◌, is_open, is_checked_in,
  is_record, has_session_id, has_record_id, same_status, second, is_live, fail_if, query,
  attendance_closed,
}
use lc_connect.Attendance.Sessions.{
  Settings, close_session, maybe_auto_close_session, session_close_at, get_session_or_404,
  start_session, insert_record, get_honors_program_id,
}
use lc_connect.Attendance.CheckIn.{
  Clock, challenge_exists, verify_challenge_token, check_code, check_in, check_in_status,
  record_check_in, insert_check_in, existing_record,
}
use lc_connect.Attendance.Correction.{manual_correct_record, write_correction, corrected}

-- What is recorded for a student.
abbrev pub Recorded : ℕ → ℕ → AttendanceRecord → Db → Type 0
Recorded session student r db =
    (is_checked_in r.status ≡ true) × (find? (is_record session student) db.records ≡ some r)

record_check_in-Recorded :
    (i student now : ℕ) (s : AttendanceSession) (db : Db) {r : AttendanceRecord} {new : Bool}
    → (record_check_in i student now s (existing_record s.id student db) db).0 ≡ ok (r, new)
    → Recorded s.id student r
        (record_check_in i student now s (existing_record s.id student db) db).1
unfolding record_check_in check_in_status insert_check_in insert_record find?
record_check_in-Recorded i student now s db done =
    elim (Option-cases (find? (is_record s.id student) db.records)) [
      | inl e ↦ ground (arith, e)
      | inr (q, e) ↦ ground (arith, e)
    ]

-- The automatic close leaves a session open only by doing nothing.
auto_close-open :
    (new_id : ℕ → ℕ) (now : ℕ) (s : AttendanceSession) (db : Db) {t : AttendanceSession}
    → (maybe_auto_close_session new_id now s db).0 ≡ ok t
    → is_open t.status ≡ true
    → (maybe_auto_close_session new_id now s db ≡ (ok s, db)) × (is_open s.status ≡ true)
unfolding maybe_auto_close_session close_session
auto_close-open new_id now s db done live = ground arith

own_id :
    (i : ℕ) (s : AttendanceSession) (db : Db)
    → find? (has_session_id i) db.sessions ≡ some s
    → s.id ≡ i
own_id i s db e = ground (arith, find?-passes (has_session_id i) db.sessions e)

module _ (settings : Settings) (sign : ℕ → ℕ → ℕ → Text) (parse : Text → Option ℕ)
    (new_id : ℕ → ℕ) where
  check_code-genuine :
      (clock : Clock) (i challenge e : ℕ) (raw token : Text) (db : Db)
      → parse raw ≡ some e
      → (check_code settings sign parse new_id clock i challenge raw token db).0 ≡ ok tt
      → ((verify_challenge_token settings sign parse i challenge e token ≡ true)
          × (challenge_exists clock.tick i challenge db ≡ true)
          × (clock.scan ≤ e + 2 * second))
        × (check_code settings sign parse new_id clock i challenge raw token db ≡ (ok tt, db))
  unfolding check_code
  check_code-genuine clock i challenge e raw token db h done = ground arith

  -- The part of a check-in behind its checks on the code.
  abbrev after_code : ℕ → Clock → ℕ → ℕ → Step (AttendanceRecord × Bool)
  after_code r clock student i = do
    found ← get_session_or_404 i
    session ← maybe_auto_close_session new_id clock.look found
    fail_if (not (is_open session.status)) attendance_closed
    existing ← query (existing_record i student)
    record_check_in r student clock.mark session existing

  after_open :
      (k : ℕ) (clock : Clock) (student i : ℕ) (s : AttendanceSession) (db : Db)
      {r : AttendanceRecord} {new : Bool}
      → find? (has_session_id i) db.sessions ≡ some s
      → (maybe_auto_close_session new_id clock.look s db ≡ (ok s, db)) × (is_open s.status ≡ true)
      → (after_code k clock student i db).0 ≡ ok (r, new)
      → Recorded i student r (after_code k clock student i db).1
  after_open k clock student i s db {r} {new} e (q, live) done =
      rw (e, q, live, sym (own_id i s db e))
        (record_check_in-Recorded k student clock.mark s db
          (rw (e, q, live, sym (own_id i s db e)) at done))

  after_code-Recorded :
      (k : ℕ) (clock : Clock) (student i : ℕ) (db : Db) {r : AttendanceRecord} {new : Bool}
      → (after_code k clock student i db).0 ≡ ok (r, new)
      → Recorded i student r (after_code k clock student i db).1
  after_code-Recorded k clock student i db {r} {new} done =
      elim (Option-cases (find? (has_session_id i) db.sessions)) [
        | inl e ↦ ground (arith, e)
        | inr (s, e) ↦ elim (Result-cases (maybe_auto_close_session new_id clock.look s db).0) [
          | inr (x, m) ↦ ground (arith, e, m)
          | inl (t, m) ↦ elim (Bool-cases (is_open t.status)) [
            | inr shut ↦ ground (arith, e, m, shut)
            | inl live ↦
                after_open k clock student i s db e (auto_close-open new_id clock.look s db m live)
                  done
          ]
        ]
      ]

  -- A check-in that returns a record, new or not, was made with a code that carries this service's
  -- signature for the session, the challenge and the end of validity that the request names, that
  -- is in the store and not over (with two seconds of grace); and the record is the one that the
  -- student now has in the session, present or late.
  pub check_in-authentic :
      (k : ℕ) (clock : Clock) (student i challenge e : ℕ) (raw token : Text) (db : Db)
      {r : AttendanceRecord} {new : Bool}
      → parse raw ≡ some e
      → (check_in settings sign parse new_id k clock student i challenge raw token db).0
        ≡ ok (r, new)
      → ((verify_challenge_token settings sign parse i challenge e token ≡ true)
          × (challenge_exists clock.tick i challenge db ≡ true)
          × (clock.scan ≤ e + 2 * second))
        × Recorded i student r
            (check_in settings sign parse new_id k clock student i challenge raw token db).1
  unfolding check_in
  check_in-authentic k clock student i challenge e raw token db {r} {new} h done =
      elim (Result-cases (check_code settings sign parse new_id clock i challenge raw token db).0) [
        | inr (x, c) ↦ ground (arith, c)
        | inl (u, c) ↦
            let genuine = check_code-genuine clock i challenge e raw token db h c in
            (
              genuine.0,
              rw genuine.1 (after_code-Recorded k clock student i db (rw genuine.1 at done)),
            )
      ]

same_status-path : (a b : RecordStatus) → same_status a b ≡ true → a ≡ b
same_status-path a b h = ground arith

same_id : (i : ℕ) (r : AttendanceRecord) → has_record_id i r ≡ true → r.id ≡ i
same_id i r h = ground arith

-- The corrected record is found by its id.
stored_after :
    (now actor i : ℕ) (status : RecordStatus) (reason : Text) (old : AttendanceRecord) (db : Db)
    → find? (has_record_id i) db.records ≡ some old
    → find? (has_record_id i) (write_correction now actor status reason old db).records
      ≡ some (corrected now actor status reason old)
unfolding write_correction corrected
stored_after now actor i status reason old db found =
    subst
      (λ k.
        find? (has_record_id k) db.records ≡ some old
        → find? (has_record_id k) (
            update_first (has_record_id old.id) (λ _. corrected now actor status reason old)
              db.records)
          ≡ some (corrected now actor status reason old))
      (same_id i old (find?-passes (has_record_id i) db.records found))
      (find?-update_first_self (has_record_id old.id) (λ _. corrected now actor status reason old)
        db.records (ground arith))
      found

-- A correction that returns a record gives it the new status; it writes one row of the trail, with the
-- status before and after and the reason, where the status changes, and nothing where it does not.
pub manual_correct_record-audited :
    (now actor i : ℕ) (status : RecordStatus) (reason : Text) (db : Db) {old r : AttendanceRecord}
    → find? (has_record_id i) db.records ≡ some old
    → (manual_correct_record now actor i status reason db).0 ≡ ok r
    → (r.status ≡ status)
      × (find? (has_record_id i) (manual_correct_record now actor i status reason db).1.records
          ≡ some r)
      × ((manual_correct_record now actor i status reason db).1.audit ≡ (
          if same_status old.status status
          then db.audit
          else record {
            attendance_record_id = old.id;
            changed_by_id = actor;
            previous_status = old.status;
            new_status = status;
            reason = strip reason;
          }
            ∷ db.audit))
unfolding manual_correct_record write_correction corrected
manual_correct_record-audited now actor i status reason db {old} {r} found done =
    elim (Option-cases (find? (has_session_id old.session_id) db.sessions)) [
      | inl e ↦ ground (arith, found, e)
      | inr (s, e) ↦ ground (
        arith,
        found,
        e,
        same_status-path old.status status,
        stored_after now actor i status (strip reason) old db found,
      )
    ]

-- A session that is started has a present window of 30 seconds to an hour, and is over within an
-- hour more, at a time that is never before the present window ends.
pub start_session-window :
    (settings : Settings) (new_id now actor : ℕ) (title : Text) (present late : Option ℕ) (db : Db)
    {s : AttendanceSession}
    → (start_session settings new_id now actor title present late db).0 ≡ ok s
    → (now + 30 * second ≤ s.present_until)
      × (s.present_until ≤ now + 3600 * second)
      × (s.present_until ≤ session_close_at s)
      × (session_close_at s ≤ s.present_until + 3600 * second)
unfolding start_session
start_session-window settings new_id now actor title window grace db done =
    elim (Option-cases (get_honors_program_id db)) [
      | inl h ↦ ground (arith, h)
      | inr (program, h) ↦ elim (Option-cases (find? (is_live program) db.sessions)) [
        | inr (t, e) ↦ ground (arith, h, e)
        | inl e ↦ ground (arith, h, e)
      ]
    ]
