-- ===== src/Attendance/Correction.antt =====
-- `manual_correct_record` of backend/app/features/attendance/service.py, and its trail.
use lc_connect.Base.{
  ℕ, Bool, true, Option, none, some, ◌∷◌, ltb, if◌then◌else◌, Text, strip, length, find?,
  update_first,
}
use lc_connect.Attendance.Defs.{
  AttendanceRecord, RecordStatus, by_hand, Db, reason_required, record_not_found, Step, ◌>>=◌, ◌>>◌,
  return, fail_if, or_fail, query, execute, is_checked_in, same_status, has_record_id,
}
use lc_connect.Attendance.Sessions.{get_session_or_404}

-- A time of arrival that is missing is set where the new status is a check-in.
abbrev pub arrival : Bool → ℕ → Option ℕ → Option ℕ → Option ℕ
arrival counts now none old = if counts then some now else old
arrival counts now (some t) old = old

unfoldable pub corrected : ℕ → ℕ → RecordStatus → Text → AttendanceRecord → AttendanceRecord
corrected now actor status reason r = record r {
  status = status;
  verification_method = by_hand;
  checked_in_at = arrival (is_checked_in status) now r.checked_in_at r.checked_in_at;
  original_checked_in_at =
      arrival (is_checked_in status) now r.checked_in_at r.original_checked_in_at;
  manually_modified = true;
  modified_by_id = some actor;
  modified_at = some now;
  modification_reason = some reason;
}

-- The writes of a correction.
unfoldable pub write_correction : ℕ → ℕ → RecordStatus → Text → AttendanceRecord → Db → Db
write_correction now actor status reason r db = record db {
  audit =
      record {
        attendance_record_id = r.id;
        changed_by_id = actor;
        previous_status = r.status;
        new_status = status;
        reason = reason;
      }
      ∷ db.audit;
  records = update_first (has_record_id r.id) (λ _. corrected now actor status reason r) db.records;
}

-- A status outside `RECORD_STATUSES` has no value here.
unfoldable pub manual_correct_record : ℕ → ℕ → ℕ → RecordStatus → Text → Step AttendanceRecord
manual_correct_record now actor i status reason = do
  let cleaned = strip reason
  fail_if (ltb (length cleaned) 3) reason_required
  row ← query (λ db. find? (has_record_id i) db.records)
  r ← or_fail row record_not_found
  session ← get_session_or_404 r.session_id
  if same_status r.status status
      then return r
      else (execute (write_correction now actor status cleaned r)
          >> return (corrected now actor status cleaned r))
