-- ===== src/Attendance/Sessions.antt =====
-- Sessions of backend/app/features/attendance/service.py: starting, closing, and the sweep, with the
-- challenge store that a close clears (challenges.py, kept in the process).
use lc_connect.Base.{
  ℕ, ◌+◌, ◌*◌, Bool, false, not, ◌&&◌, ◌||◌, Option, none, some, List, [], ◌∷◌, ◌==◌, ltb, leb,
  if◌then◌else◌, is_some, Text, strip, text_eq, length, find?, filter_rows, count_if, update_first,
}
use lc_connect.People.{Program, ProgramMembership}
use lc_connect.Attendance.Defs.{
  AttendanceSession, AttendanceRecord, opened, closed, absent, by_qr, Db, not_configured,
  title_required, title_too_long, invalid_present_window, invalid_late_window, program_missing,
  already_open, session_not_found, no_row, Step, ◌>>=◌, ◌>>◌, return, fail_if, or_fail, query,
  execute, second, presidential_scholars_slug, is_open, has_session_id, is_record, is_live,
  is_current_member,
}

-- `settings`, as far as the service reads it.
pub record Settings : Type 0 where
  pub signing_secret_configured : Bool
  pub present_window_seconds : ℕ
  pub late_window_seconds : ℕ
  pub qr_ttl_seconds : ℕ

abbrev pub session_close_at : AttendanceSession → ℕ
session_close_at s = or_else s.late_until s.present_until
  where
    or_else : Option ℕ → ℕ → ℕ
    or_else none d = d
    or_else (some t) d = t

-- The slug is unique, and so is a program's live session: one row at most is found.
unfoldable pub get_honors_program_id : Db → Option ℕ
get_honors_program_id db =
    id_of (find? (λ p. text_eq p.slug presidential_scholars_slug && p.is_active) db.programs)
  where
    id_of : Option Program → Option ℕ
    id_of none = none
    id_of (some p) = some p.id

unfoldable pub count_active_honors_students : ℕ → Db → ℕ
count_active_honors_students program db = count_if (is_current_member program) db.memberships

abbrev pub get_open_session : ℕ → Db → Option AttendanceSession
get_open_session program db = find? (is_live program) db.sessions

abbrev pub get_session_or_404 : ℕ → Step AttendanceSession
get_session_or_404 i = do
  session ← query (λ db. find? (has_session_id i) db.sessions)
  or_fail session session_not_found

-- `clear_session_challenges`
unfoldable pub clear_session_challenges : ℕ → Db → Db
clear_session_challenges i db = record db {
  challenges = filter_rows (λ c. not (c.session_id == i)) db.challenges;
}

-- The row that a close inserts for a member. Its id is drawn by `uuid4`.
abbrev pub absent_row : ℕ → ℕ → ℕ → AttendanceRecord
absent_row new_id session student = record {
  id = new_id;
  session_id = session;
  student_id = student;
  status = absent;
  verification_method = by_qr;
  checked_in_at = none;
  original_checked_in_at = none;
  manually_modified = false;
  modified_by_id = none;
  modified_at = none;
  modification_reason = none;
}

-- `INSERT … ON CONFLICT DO NOTHING` on the key of a record.
unfoldable pub insert_record : AttendanceRecord → List AttendanceRecord → List AttendanceRecord
insert_record r rs = if is_some (find? (is_record r.session_id r.student_id) rs) then rs else r ∷ rs

-- An absent row for each active member of the program.
unfoldable pub insert_absents :
    (ℕ → ℕ) → ℕ → ℕ → List ProgramMembership → List AttendanceRecord → List AttendanceRecord
insert_absents new_id session program [] rs = rs
insert_absents new_id session program (m ∷ ms) rs = insert_absents new_id session program ms (
    if is_current_member program m
    then insert_record (absent_row (new_id m.user_id) session m.user_id) rs
    else rs)

abbrev pub closed_session : ℕ → AttendanceSession → AttendanceSession
closed_session now s = record s { status = closed; closed_at = some now }

-- The writes of a close.
unfoldable pub write_close : (ℕ → ℕ) → ℕ → AttendanceSession → Db → Db
write_close new_id now s db = clear_session_challenges s.id (record db {
  sessions = update_first (has_session_id s.id) (λ _. closed_session now s) db.sessions;
  records = insert_absents new_id s.id s.program_id db.memberships db.records;
})

module _ (new_id : ℕ → ℕ) where
  -- Reads the row again under its lock.
  abbrev pub close_locked : ℕ → AttendanceSession → Step AttendanceSession
  close_locked now s =
      if not (is_open s.status)
      then return s
      else (execute (write_close new_id now s) >> return (closed_session now s))

  unfoldable pub close_session : ℕ → AttendanceSession → Step AttendanceSession
  close_session now session = if not (is_open session.status) then return session else do
    row ← query (λ db. find? (has_session_id session.id) db.sessions)
    s ← or_fail row no_row
    close_locked now s

  unfoldable pub maybe_auto_close_session : ℕ → AttendanceSession → Step AttendanceSession
  maybe_auto_close_session now session =
      if not (is_open session.status)
      then return session
      else if leb now (session_close_at session)
      then return session
      else close_session now session

  unfoldable pub close_session_by_id : ℕ → ℕ → Step AttendanceSession
  close_session_by_id now i = do
    found ← get_session_or_404 i
    session ← maybe_auto_close_session now found
    if not (is_open session.status) then return session else close_session now session

  -- The loop of the sweep. `clock` reads the time for a session.
  unfoldable pub close_expired : (AttendanceSession → ℕ) → List AttendanceSession → Step (List ℕ)
  close_expired clock [] = return []
  close_expired clock (s ∷ rows) =
      let rest = close_expired clock rows in
      if leb (clock s) (session_close_at s)
      then rest
      else do done ← close_session (clock s) s; ids ← rest; return (s.id ∷ ids)

  unfoldable pub sweep_expired_sessions : (AttendanceSession → ℕ) → Step (List ℕ)
  sweep_expired_sessions clock = do
    rows ← query (λ db. filter_rows (λ s. is_open s.status) db.sessions)
    close_expired clock rows

module _ (settings : Settings) where
  -- `present_window_seconds or default`: zero counts as absent.
  abbrev pub present_seconds : Option ℕ → ℕ
  present_seconds none = settings.present_window_seconds
  present_seconds (some n) = if n == 0 then settings.present_window_seconds else n

  abbrev pub late_seconds : Option ℕ → ℕ
  late_seconds none = settings.late_window_seconds
  late_seconds (some n) = n

  -- The new row, with the id that `uuid4` draws.
  abbrev pub new_session : ℕ → ℕ → Text → ℕ → ℕ → ℕ → ℕ → AttendanceSession
  new_session new_id program title actor now present late = record {
    id = new_id;
    program_id = program;
    title = title;
    started_by_id = actor;
    opened_at = now;
    present_until = now + present * second;
    late_until = if ltb 0 late then some (now + (present + late) * second) else none;
    closed_at = none;
    status = opened;
  }

  unfoldable pub start_session : ℕ → ℕ → ℕ → Text → Option ℕ → Option ℕ → Step AttendanceSession
  start_session new_id now actor title present_window late_window = do
    fail_if (not settings.signing_secret_configured) not_configured
    let cleaned = strip title
    fail_if (length cleaned == 0) title_required
    fail_if (ltb 160 (length cleaned)) title_too_long
    let present = present_seconds present_window
    let late = late_seconds late_window
    fail_if (ltb present 30 || ltb 3600 present) invalid_present_window
    fail_if (ltb 3600 late) invalid_late_window
    honors ← query get_honors_program_id
    program ← or_fail honors program_missing
    existing ← query (get_open_session program)
    fail_if (is_some existing) already_open
    let session = new_session new_id program cleaned actor now present late
    execute (λ db. record db { sessions = session ∷ db.sessions })
    return session
