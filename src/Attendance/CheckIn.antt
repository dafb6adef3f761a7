-- ===== src/Attendance/CheckIn.antt =====
-- Checking in over a rotating code: service.py, qr.py and challenges.py of
-- backend/app/features/attendance. `sign` is the HMAC with the signing secret, `parse` is
-- `datetime.fromisoformat` followed by the change to UTC. The time is read several times in a call.
use lc_connect.Base.{
  ℕ, ◌+◌, ◌*◌, Bool, true, false, not, ◌&&◌, ◌||◌, Option, none, some, List, [], ◌∷◌, ◌==◌, ltb,
  leb, if◌then◌else◌, is_some, Result, ok, err, Text, text_eq, find?, filter_rows,
}
use lc_connect.Attendance.Defs.{
  AttendanceSession, AttendanceRecord, RecordStatus, present, late, by_qr, Challenge, Db, Error,
  attendance_closed, no_signing_secret, invalid_payload, qr_expired, invalid_qr, check_in_failed,
  Step, ◌>>=◌, ◌>>◌, return, raise, fail_if, or_fail, query, execute, second, is_open,
  is_checked_in, is_record,
}
use lc_connect.Attendance.Sessions.{
  Settings, get_session_or_404, maybe_auto_close_session, insert_record,
}

-- The readings of the clock in one call: for the code's expiry, for the store (monotonic), for the
-- automatic close, and for the record.
pub record Clock : Type 0 where
  pub scan : ℕ
  pub tick : ℕ
  pub look : ℕ
  pub mark : ℕ

-- `QRChallenge`
pub record QrChallenge : Type 0 where
  pub version : ℕ
  pub session_id : ℕ
  pub challenge_id : ℕ
  pub expires_at : ℕ
  pub token : Text

abbrev pub is_key : ℕ → ℕ → Challenge → Bool
is_key session challenge c = c.session_id == session && c.challenge_id == challenge

-- `_purge_memory`
abbrev pub purge : ℕ → List Challenge → List Challenge
purge tick cs = filter_rows (λ c. ltb tick c.expiry) cs

unfoldable pub store_challenge : ℕ → ℕ → ℕ → ℕ → Db → Db
store_challenge tick session challenge ttl db = record db {
  challenges =
      record { session_id = session; challenge_id = challenge; expiry = tick + ttl * second }
      ∷ filter_rows (λ c. not (is_key session challenge c)) (purge tick db.challenges);
}

unfoldable pub challenge_exists : ℕ → ℕ → ℕ → Db → Bool
challenge_exists tick session challenge db =
    lives (find? (is_key session challenge) (purge tick db.challenges))
  where
    lives : Option Challenge → Bool
    lives none = false
    lives (some c) = ltb tick c.expiry

-- With `_CLOCK_SKEW_SECONDS`.
abbrev pub challenge_not_expired : ℕ → ℕ → Bool
challenge_not_expired expires_at now = leb now (expires_at + 2 * second)

abbrev pub is_empty : Text → Bool
is_empty [] = true
is_empty (c ∷ s) = false

unfoldable pub check_in_status : AttendanceSession → ℕ → Result Error RecordStatus
check_in_status s now = if leb now s.present_until then ok present else late_or_closed s.late_until
  where
    late_or_closed : Option ℕ → Result Error RecordStatus
    late_or_closed none = err attendance_closed
    late_or_closed (some until) = if leb now until then ok late else err attendance_closed

abbrev pub or_error : {A : Type 0} → Result Error A → Step A
or_error (ok a) = return a
or_error (err e) = raise e

-- The unique constraint leaves one row at most.
abbrev pub existing_record : ℕ → ℕ → Db → Option AttendanceRecord
existing_record session student db = find? (is_record session student) db.records

abbrev pub is_done : Option AttendanceRecord → Bool
is_done none = false
is_done (some r) = is_checked_in r.status

abbrev pub checked_in_row : ℕ → ℕ → ℕ → RecordStatus → ℕ → AttendanceRecord
checked_in_row new_id session student status now = record {
  id = new_id;
  session_id = session;
  student_id = student;
  status = status;
  verification_method = by_qr;
  checked_in_at = some now;
  original_checked_in_at = some now;
  manually_modified = false;
  modified_by_id = none;
  modified_at = none;
  modification_reason = none;
}

-- What a check-in returns for the row that stood in the way of its insert.
abbrev pub after_conflict : Option AttendanceRecord → Step (AttendanceRecord × Bool)
after_conflict none = raise check_in_failed
after_conflict (some r) =
    if not (is_checked_in r.status) then raise attendance_closed else return (r, false)

-- The insert, its conflict, and the commit.
unfoldable pub insert_check_in : AttendanceRecord → Step (AttendanceRecord × Bool)
insert_check_in row db =
    if is_some (existing_record row.session_id row.student_id db)
    then after_conflict (existing_record row.session_id row.student_id db) db
    else return (row, true) (record db { records = insert_record row db.records })

-- A check-in, once its session is known to be open.
unfoldable pub record_check_in :
    ℕ → ℕ → ℕ → AttendanceSession → Option AttendanceRecord → Step (AttendanceRecord × Bool)
record_check_in new_id student now session none = do
  status ← or_error (check_in_status session now)
  insert_check_in (checked_in_row new_id session.id student status now)
record_check_in new_id student now session (some r) =
    if is_checked_in r.status then return (r, false) else do
      status ← or_error (check_in_status session now)
      insert_check_in (checked_in_row new_id session.id student status now)

module _ (settings : Settings) (sign : ℕ → ℕ → ℕ → Text) (parse : Text → Option ℕ) where
  unfoldable pub verify_challenge_token : ℕ → ℕ → ℕ → Text → Bool
  verify_challenge_token session challenge expires_at token =
      if is_empty token || not settings.signing_secret_configured
      then false
      else text_eq (sign session challenge expires_at) token

  -- `build_challenge`, with the id that `uuid4` draws, where the signing secret is there.
  abbrev pub build_challenge : ℕ → ℕ → ℕ → QrChallenge
  build_challenge new_id now session = record {
    version = 1;
    session_id = session;
    challenge_id = new_id;
    expires_at = now + settings.qr_ttl_seconds * second;
    token = sign session new_id (now + settings.qr_ttl_seconds * second);
  }

  module _ (new_id : ℕ → ℕ) where
    unfoldable pub issue_qr_challenge : ℕ → Clock → ℕ → Step QrChallenge
    issue_qr_challenge challenge_id clock i = do
      found ← get_session_or_404 i
      session ← maybe_auto_close_session new_id clock.look found
      fail_if (not (is_open session.status)) attendance_closed
      fail_if (not settings.signing_secret_configured) no_signing_secret
      let challenge = build_challenge challenge_id clock.scan i
      execute (store_challenge clock.tick i challenge_id settings.qr_ttl_seconds)
      return challenge

    -- The checks on the code that was scanned.
    unfoldable pub check_code : Clock → ℕ → ℕ → Text → Text → Step (Unit {0})
    check_code clock i challenge expires_at_raw token = do
      expires_at ← or_fail (parse expires_at_raw) invalid_payload
      fail_if (not (challenge_not_expired expires_at clock.scan)) qr_expired
      fail_if (not (verify_challenge_token i challenge expires_at token)) invalid_qr
      known ← query (challenge_exists clock.tick i challenge)
      fail_if (not known) qr_expired

    unfoldable pub check_in : ℕ → Clock → ℕ → ℕ → ℕ → Text → Text → Step (AttendanceRecord × Bool)
    check_in record_id clock student i challenge expires_at_raw token = do
      check_code clock i challenge expires_at_raw token
      found ← get_session_or_404 i
      session ← maybe_auto_close_session new_id clock.look found
      fail_if (not (is_open session.status)) attendance_closed
      existing ← query (existing_record i student)
      record_check_in record_id student clock.mark session existing
