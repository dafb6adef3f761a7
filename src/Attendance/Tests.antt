-- ===== src/Attendance/Tests.antt =====
-- A class of two: one scans the code in time, the other is marked absent at the close and is excused.
use lc_connect.Base.{
  update_first, ℕ, ◌+◌, ◌*◌, ◌≤◌, ◌≡◌, refl, true, Option, none, some, List, [], ◌∷◌, arith, Text,
  ok, find?, filter_rows, count_if, strip, text_eq,
}
use lc_connect.Attendance.Defs.{
  AttendanceSession, AttendanceRecord, opened, present, absent, excused, Db,
  presidential_scholars_slug, is_live, is_record, has_record_id, second,
}
use lc_connect.Attendance.Sessions.{
  write_close, clear_session_challenges, sweep_expired_sessions, close_expired, Settings,
  absent_row, close_session, closed_session, insert_record, start_session, session_close_at,
  get_honors_program_id,
}
use lc_connect.Attendance.CheckIn.{
  Clock, check_in, check_code, challenge_exists, verify_challenge_token, record_check_in,
  check_in_status, insert_check_in, checked_in_row,
}
use lc_connect.Attendance.Sessions.{maybe_auto_close_session}
use lc_connect.Attendance.Correction.{manual_correct_record, corrected}
use lc_connect.Attendance.Calls.{Call, start, close, run}
use lc_connect.Attendance.Closing.{close_session-records}
use lc_connect.Attendance.Sweeping.Run.{sweep_expired_sessions-done}
use lc_connect.Attendance.Live.Run.{run-OneLive}
use lc_connect.Attendance.Authentic.{
  Recorded, check_in-authentic, manual_correct_record-audited, start_session-window,
}

abbrev settings : Settings
settings = record {
  signing_secret_configured = true;
  present_window_seconds = 180;
  late_window_seconds = 120;
  qr_ttl_seconds = 10;
}

abbrev lesson : AttendanceSession
lesson = record {
  id = 5;
  program_id = 1;
  title = 72 ∷ [];
  started_by_id = 9;
  opened_at = 0;
  present_until = 180_000_000;
  late_until = some 300_000_000;
  closed_at = none;
  status = opened;
}

abbrev db : Db
db = record {
  programs = record { id = 1; slug = presidential_scholars_slug; is_active = true } ∷ [];
  memberships =
      record { user_id = 11; program_id = 1; is_current = true }
      ∷ record { user_id = 12; program_id = 1; is_current = true }
      ∷ [];
  sessions = lesson ∷ [];
  records = [];
  audit = [];
  challenges = record { session_id = 5; challenge_id = 77; expiry = 100_000_000 } ∷ [];
}

abbrev before : Db
before = record db { sessions = []; challenges = [] }

abbrev draw : ℕ → ℕ
draw user = 100 + user

abbrev clock : Clock
clock = record { scan = 20_000_000; tick = 20_000_000; look = 20_000_000; mark = 20_000_001 }

-- A token that names what it signs.
abbrev sign : ℕ → ℕ → ℕ → Text
sign session challenge e = session ∷ challenge ∷ e ∷ []

abbrev parse : Text → Option ℕ
parse raw = some 25_000_000

abbrev token : Text
token = 5 ∷ 77 ∷ 25_000_000 ∷ []

abbrev lessons : List Call
lessons =
    start 5 0 9 (72 ∷ []) none none ∷ start 6 1 9 (72 ∷ []) none none ∷ close 400_000_000 5 ∷ []

at_most_none : (program : ℕ) → count_if (is_live program) before.sessions ≤ 1
unfolding count_if
at_most_none program = omega arith

run-OneLive_example :
    count_if (is_live 1) (run settings sign parse draw lessons before).sessions ≤ 1
run-OneLive_example = run-OneLive settings sign parse draw lessons before at_most_none 1

close_session-records_example :
    ((close_session draw 400_000_000 lesson db).0 ≡ ok (closed_session 400_000_000 lesson))
    × (find? (is_record 5 12) (close_session draw 400_000_000 lesson db).1.records
        ≡ some (absent_row 112 5 12))
unfolding find?
close_session-records_example = close_session-records draw 400_000_000 12 lesson db refl refl

check_in-authentic_example :
    ((verify_challenge_token settings sign parse 5 77 25_000_000 token ≡ true)
      × (challenge_exists clock.tick 5 77 db ≡ true)
      × (clock.scan ≤ 25_000_000 + 2 * second))
    × Recorded 5 11
        (checked_in_row 200 5 11 present 20_000_001)
        (check_in settings sign parse draw 200 clock 11 5 77 [] token db).1
unfolding check_in check_code challenge_exists verify_challenge_token find? filter_rows text_eq
    maybe_auto_close_session record_check_in check_in_status insert_check_in insert_record
check_in-authentic_example =
    check_in-authentic settings sign parse draw 200 clock 11 5 77 25_000_000 [] token db
      {r = checked_in_row 200 5 11 present 20_000_001} {new = true} refl refl

abbrev missed : Db
missed = record db { records = absent_row 112 5 12 ∷ [] }

abbrev amended : AttendanceRecord
unfolding corrected
amended = corrected 500_000_000 9 excused (73 ∷ 76 ∷ 76 ∷ []) (absent_row 112 5 12)

manual_correct_record-audited_example :
    (amended.status ≡ excused)
    × (find?
          (has_record_id 112)
          (manual_correct_record 500_000_000 9 112 excused (73 ∷ 76 ∷ 76 ∷ []) missed).1.records
        ≡ some amended)
    × ((manual_correct_record 500_000_000 9 112 excused (73 ∷ 76 ∷ 76 ∷ []) missed).1.audit
        ≡ record {
          attendance_record_id = 112;
          changed_by_id = 9;
          previous_status = absent;
          new_status = excused;
          reason = 73 ∷ 76 ∷ 76 ∷ [];
        }
          ∷ [])
unfolding manual_correct_record find? strip corrected
manual_correct_record-audited_example =
    manual_correct_record-audited 500_000_000 9 112 excused (73 ∷ 76 ∷ 76 ∷ []) missed
      {old = absent_row 112 5 12} {r = amended} refl refl

start_session-window_example :
    (0 + 30 * second ≤ lesson.present_until)
    × (lesson.present_until ≤ 0 + 3600 * second)
    × (lesson.present_until ≤ session_close_at lesson)
    × (session_close_at lesson ≤ lesson.present_until + 3600 * second)
unfolding start_session get_honors_program_id find? strip text_eq
start_session-window_example =
    start_session-window settings 5 0 9 (72 ∷ []) none none before {s = lesson} refl

-- Another program's session, which is not over when the sweep runs.
abbrev later : AttendanceSession
later = record lesson { id = 6; program_id = 2; late_until = some 900_000_000 }

abbrev two_open : Db
two_open = record db { sessions = lesson ∷ later ∷ [] }

sweep_expired_sessions-done_example : 400_000_000 ≤ session_close_at later
unfolding sweep_expired_sessions close_expired close_session write_close clear_session_challenges
    find? filter_rows update_first
sweep_expired_sessions-done_example =
    sweep_expired_sessions-done draw 400_000_000 (λ s. 400_000_000) 6 two_open {ids = 5 ∷ []}
      {t = later} (λ s. omega arith) refl refl refl
