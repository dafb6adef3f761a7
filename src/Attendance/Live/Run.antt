-- ===== src/Attendance/Live/Run.antt =====
-- One live session for a program: every call of the service.
use lc_connect.Base.{
  ℕ, ◌≤◌, ◌≡◌, refl, not, Option, none, some, List, [], ◌∷◌, arith, count_if, find?, Text,
  Bool-cases, Result-cases, inl, inr,
}
use lc_connect.Attendance.Defs.{
  AttendanceSession, AttendanceRecord, RecordStatus, Db, fail_if, is_open, is_live,
  attendance_closed, no_signing_secret, is_checked_in,
}
use lc_connect.Attendance.Sessions.{
  Settings, maybe_auto_close_session, get_session_or_404, get_honors_program_id,
}
use lc_connect.Attendance.CheckIn.{
  Clock, issue_qr_challenge, check_in, check_code, check_in_status, record_check_in,
  insert_check_in, checked_in_row, existing_record, store_challenge,
}
use lc_connect.Attendance.Correction.{manual_correct_record, write_correction}
use lc_connect.Attendance.Reports.{
  get_active_for_student, build_dashboard, build_roster_counts, live_session, refresh,
}
use lc_connect.Attendance.Calls.{
  Call, start, close, sweep, issue, scan_code, correct, view_active, view_dashboard, view_roster,
  call, run,
}
use lc_connect.Attendance.Live.{
  OneLive, Keeps, Keeps->>=, same-Keeps, fail_if-Keeps, maybe_auto_close_session-Keeps,
  get_session_or_404-Keeps, close_session_by_id-Keeps, sweep_expired_sessions-Keeps,
  start_session-Keeps,
}

insert_check_in-same :
    (row : AttendanceRecord) (db : Db) → (insert_check_in row db).1.sessions ≡ db.sessions
unfolding insert_check_in
insert_check_in-same row db = ground arith

record_check_in-Keeps :
    (i student now : ℕ) (s : AttendanceSession) (existing : Option AttendanceRecord)
    → Keeps (record_check_in i student now s existing)
unfolding record_check_in
record_check_in-Keeps i student now s none =
    same-Keeps (record_check_in i student now s none) (λ db.
      elim (Result-cases (check_in_status s now)) [
        | inl (status, e) ↦
            rw e (insert_check_in-same (checked_in_row i s.id student status now) db)
        | inr (x, e) ↦ rw e refl
      ])
record_check_in-Keeps i student now s (some r) =
    same-Keeps (record_check_in i student now s (some r)) (λ db.
      elim (Bool-cases (is_checked_in r.status)) [
        | inl c ↦ rw c refl
        | inr c ↦ elim (Result-cases (check_in_status s now)) [
          | inl (status, e) ↦
              rw (c, e) (insert_check_in-same (checked_in_row i s.id student status now) db)
          | inr (x, e) ↦ rw (c, e) refl
        ]
      ])

manual_correct_record-Keeps :
    (now actor i : ℕ) (status : RecordStatus) (reason : Text)
    → Keeps (manual_correct_record now actor i status reason)
unfolding manual_correct_record write_correction
manual_correct_record-Keeps now actor i status reason =
    same-Keeps (manual_correct_record now actor i status reason) (λ db. ground arith)

build_roster_counts-Keeps : (i : ℕ) → Keeps (build_roster_counts i)
unfolding build_roster_counts
build_roster_counts-Keeps i = same-Keeps (build_roster_counts i) (λ db. ground arith)

module _ (new_id : ℕ → ℕ) where
  refresh-Keeps : (now : ℕ) (s : Option AttendanceSession) → Keeps (refresh new_id now s)
  refresh-Keeps now none db one = one
  refresh-Keeps now (some s) db one =
      Keeps->>= (maybe_auto_close_session new_id now s) _
        (maybe_auto_close_session-Keeps new_id now s) (λ s' db' one'. one') db one

  live_session-Keeps : (now : ℕ) (p : Option ℕ) → Keeps (live_session new_id now p)
  live_session-Keeps now none db one = one
  live_session-Keeps now (some program) db one =
      refresh-Keeps now (find? (is_live program) db.sessions) db one

  get_active-Keeps : (now student : ℕ) → Keeps (get_active_for_student new_id now student)
  unfolding get_active_for_student
  get_active-Keeps now student db one =
      Keeps->>= (live_session new_id now (get_honors_program_id db)) _
        (live_session-Keeps now (get_honors_program_id db)) (λ s db' one'. one') db one

  build_dashboard-Keeps : (now : ℕ) → Keeps (build_dashboard new_id now)
  unfolding build_dashboard
  build_dashboard-Keeps now db one =
      Keeps->>= (live_session new_id now (get_honors_program_id db)) _
        (live_session-Keeps now (get_honors_program_id db)) (λ s db' one'. one') db one

module _ (settings : Settings) (sign : ℕ → ℕ → ℕ → Text) (parse : Text → Option ℕ)
    (new_id : ℕ → ℕ) where
  check_code-Keeps :
      (clock : Clock) (i challenge : ℕ) (raw token : Text)
      → Keeps (check_code settings sign parse new_id clock i challenge raw token)
  unfolding check_code
  check_code-Keeps clock i challenge raw token =
      same-Keeps (check_code settings sign parse new_id clock i challenge raw token)
        (λ db. ground arith)

  issue_qr_challenge-Keeps :
      (c : ℕ) (clock : Clock) (i : ℕ)
      → Keeps (issue_qr_challenge settings sign parse new_id c clock i)
  unfolding issue_qr_challenge store_challenge
  issue_qr_challenge-Keeps c clock i =
      Keeps->>= (get_session_or_404 i) _ (get_session_or_404-Keeps new_id i) (λ found.
        Keeps->>= (maybe_auto_close_session new_id clock.look found) _
          (maybe_auto_close_session-Keeps new_id clock.look found)
          (λ s.
            Keeps->>= (fail_if (not (is_open s.status)) attendance_closed) _
              (fail_if-Keeps (not (is_open s.status)) attendance_closed)
              (λ u.
                Keeps->>= (fail_if (not settings.signing_secret_configured) no_signing_secret) _
                  (fail_if-Keeps (not settings.signing_secret_configured) no_signing_secret)
                  (λ u' db one. one))))

  check_in-Keeps :
      (r : ℕ) (clock : Clock) (student i challenge : ℕ) (raw token : Text)
      → Keeps (check_in settings sign parse new_id r clock student i challenge raw token)
  unfolding check_in
  check_in-Keeps r clock student i challenge raw token =
      Keeps->>= (check_code settings sign parse new_id clock i challenge raw token) _
        (check_code-Keeps clock i challenge raw token)
        (λ u. Keeps->>= (get_session_or_404 i) _ (get_session_or_404-Keeps new_id i) (λ found.
          Keeps->>= (maybe_auto_close_session new_id clock.look found) _
            (maybe_auto_close_session-Keeps new_id clock.look found)
            (λ s.
              Keeps->>= (fail_if (not (is_open s.status)) attendance_closed) _
                (fail_if-Keeps (not (is_open s.status)) attendance_closed)
                (λ u' db one.
                  record_check_in-Keeps r student clock.mark s (existing_record i student db) db
                    one))))

  call-OneLive : (c : Call) (db : Db) → OneLive db → OneLive (call settings sign parse new_id c db)
  unfolding call
  call-OneLive (start i now actor title present late) db one =
      start_session-Keeps settings i now actor title present late db one
  call-OneLive (close now i) db one = close_session_by_id-Keeps new_id now i db one
  call-OneLive (sweep clock) db one = sweep_expired_sessions-Keeps new_id clock db one
  call-OneLive (issue c clock i) db one = issue_qr_challenge-Keeps c clock i db one
  call-OneLive (scan_code r clock student i challenge raw token) db one =
      check_in-Keeps r clock student i challenge raw token db one
  call-OneLive (correct now actor i status reason) db one =
      manual_correct_record-Keeps now actor i status reason db one
  call-OneLive (view_active now student) db one = get_active-Keeps new_id now student db one
  call-OneLive (view_dashboard now) db one = build_dashboard-Keeps new_id now db one
  call-OneLive (view_roster i) db one = build_roster_counts-Keeps i db one

  -- Every program has at most one open session, through any calls of the service, if it had at
  -- most one before them.
  pub run-OneLive :
      (cs : List Call) (db : Db)
      → ((program : ℕ) → count_if (is_live program) db.sessions ≤ 1)
      → (program : ℕ)
      → count_if (is_live program) (run settings sign parse new_id cs db).sessions ≤ 1
  unfolding run
  run-OneLive [] db one = one
  run-OneLive (c ∷ cs) db one =
      run-OneLive cs (call settings sign parse new_id c db) (call-OneLive c db one)
