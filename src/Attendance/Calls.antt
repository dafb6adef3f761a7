-- ===== src/Attendance/Calls.antt =====
-- The calls of the attendance service, one after the other. What a call draws (ids) and reads (clocks)
-- stands among its arguments.
use lc_connect.Base.{ℕ, Option, List, [], ◌∷◌, Text}
use lc_connect.Attendance.Defs.{AttendanceSession, RecordStatus, Db}
use lc_connect.Attendance.Sessions.{
  Settings, start_session, close_session_by_id, sweep_expired_sessions,
}
use lc_connect.Attendance.CheckIn.{Clock, issue_qr_challenge, check_in}
use lc_connect.Attendance.Correction.{manual_correct_record}
use lc_connect.Attendance.Reports.{get_active_for_student, build_dashboard, build_roster_counts}

pub data Call : Type 0 where
  start : ℕ → ℕ → ℕ → Text → Option ℕ → Option ℕ → Call
  close : ℕ → ℕ → Call
  sweep : (AttendanceSession → ℕ) → Call
  issue : ℕ → Clock → ℕ → Call
  scan_code : ℕ → Clock → ℕ → ℕ → ℕ → Text → Text → Call
  correct : ℕ → ℕ → ℕ → RecordStatus → Text → Call
  view_active : ℕ → ℕ → Call
  view_dashboard : ℕ → Call
  view_roster : ℕ → Call

module _ (settings : Settings) (sign : ℕ → ℕ → ℕ → Text) (parse : Text → Option ℕ)
    (new_id : ℕ → ℕ) where
  unfoldable pub call : Call → Db → Db
  call (start i now actor title present late) db =
      (start_session settings i now actor title present late db).1
  call (close now i) db = (close_session_by_id new_id now i db).1
  call (sweep clock) db = (sweep_expired_sessions new_id clock db).1
  call (issue c clock i) db = (issue_qr_challenge settings sign parse new_id c clock i db).1
  call (scan_code r clock student i challenge expires token) db =
      (check_in settings sign parse new_id r clock student i challenge expires token db).1
  call (correct now actor i status reason) db =
      (manual_correct_record now actor i status reason db).1
  call (view_active now student) db = (get_active_for_student new_id now student db).1
  call (view_dashboard now) db = (build_dashboard new_id now db).1
  call (view_roster i) db = (build_roster_counts i db).1

  unfoldable pub run : List Call → Db → Db
  run [] db = db
  run (c ∷ cs) db = run cs (call c db)
