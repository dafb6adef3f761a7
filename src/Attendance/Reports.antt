-- ===== src/Attendance/Reports.antt =====
-- The reads of backend/app/features/attendance/service.py: a student's live session, the dashboard and
-- the numbers of a roster. Names and addresses of the students are left out.
use lc_connect.Base.{ℕ, ◌+◌, ◌-◌, Bool, ◌&&◌, Option, none, some, ◌==◌, count_if, if◌then◌else◌}
use lc_connect.Attendance.Defs.{
  AttendanceSession, AttendanceRecord, RecordStatus, present, late, absent, excused, Db, Step,
  ◌>>=◌, return, query, is_open, is_checked_in, same_status,
}
use lc_connect.Attendance.Sessions.{
  get_honors_program_id, get_open_session, maybe_auto_close_session, count_active_honors_students,
  get_session_or_404,
}
use lc_connect.Attendance.CheckIn.{existing_record}

-- The query of `_record_status_counts` for one status.
abbrev pub with_status : ℕ → RecordStatus → AttendanceRecord → Bool
with_status session status r = r.session_id == session && same_status r.status status

pub record Counts : Type 0 where
  pub present_count : ℕ
  pub late_count : ℕ
  pub absent_count : ℕ
  pub excused_count : ℕ
  pub checked_in_count : ℕ

unfoldable pub record_status_counts : ℕ → Db → Counts
record_status_counts i db = record {
  present_count = count_if (with_status i present) db.records;
  late_count = count_if (with_status i late) db.records;
  absent_count = count_if (with_status i absent) db.records;
  excused_count = count_if (with_status i excused) db.records;
  checked_in_count =
      count_if (with_status i present) db.records + count_if (with_status i late) db.records;
}

-- The numbers of `build_roster_payload`: `remaining_count` is `max(0, total - checked in)`.
unfoldable pub build_roster_counts : ℕ → Step (Counts × ℕ)
build_roster_counts i = do
  session ← get_session_or_404 i
  total ← query (count_active_honors_students session.program_id)
  counts ← query (record_status_counts session.id)
  return (counts, total - counts.checked_in_count)

abbrev pub in_session : ℕ → AttendanceRecord → Bool
in_session i r = r.session_id == i && is_checked_in r.status

module _ (new_id : ℕ → ℕ) where
  -- A live session, closed on the way where its time is over.
  abbrev pub refresh : ℕ → Option AttendanceSession → Step (Option AttendanceSession)
  refresh now none = return none
  refresh now (some s) = do
    session ← maybe_auto_close_session new_id now s
    return (if is_open session.status then some session else none)

  abbrev pub live_session : ℕ → Option ℕ → Step (Option AttendanceSession)
  live_session now none = return none
  live_session now (some program) = do found ← query (get_open_session program); refresh now found

  abbrev pub with_record :
      ℕ → Option AttendanceSession → Db → Option AttendanceSession × Option AttendanceRecord
  with_record student none db = (none, none)
  with_record student (some s) db = (some s, existing_record s.id student db)

  unfoldable pub get_active_for_student :
      ℕ → ℕ → Step (Option AttendanceSession × Option AttendanceRecord)
  get_active_for_student now student = do
    program ← query get_honors_program_id
    session ← live_session now program
    query (with_record student session)

  abbrev pub active_payload : Option AttendanceSession → Db → Option (AttendanceSession × ℕ)
  active_payload none db = none
  active_payload (some s) db = some (s, count_if (in_session s.id) db.records)

  abbrev pub members_of : Option ℕ → Db → ℕ
  members_of none db = 0
  members_of (some program) db = count_active_honors_students program db

  unfoldable pub build_dashboard : ℕ → Step (Option (AttendanceSession × ℕ) × ℕ)
  build_dashboard now = do
    program ← query get_honors_program_id
    total ← query (members_of program)
    session ← live_session now program
    payload ← query (active_payload session)
    return (payload, total)
