-- ===== src/Attendance/Defs.antt =====
-- The rows of backend/app/models/attendance.py, the database that the service works on, and the chains
-- of steps that it is written in. A time counts microseconds.
use lc_connect.Base.{
  ℕ, Bool, true, false, ◌&&◌, Option, none, some, List, [], ◌∷◌, ◌==◌, Result, ok, err, Text,
}
use lc_connect.People.{Program, ProgramMembership}

pub data SessionStatus : Type 0 where
  opened closed : SessionStatus

pub data RecordStatus : Type 0 where
  present late absent excused : RecordStatus

pub data Verification : Type 0 where
  by_qr by_hand : Verification

pub record AttendanceSession : Type 0 where
  pub id : ℕ
  pub program_id : ℕ
  pub title : Text
  pub started_by_id : ℕ
  pub opened_at : ℕ
  pub present_until : ℕ
  pub late_until : Option ℕ
  pub closed_at : Option ℕ
  pub status : SessionStatus

pub record AttendanceRecord : Type 0 where
  pub id : ℕ
  pub session_id : ℕ
  pub student_id : ℕ
  pub status : RecordStatus
  pub verification_method : Verification
  pub checked_in_at : Option ℕ
  pub original_checked_in_at : Option ℕ
  pub manually_modified : Bool
  pub modified_by_id : Option ℕ
  pub modified_at : Option ℕ
  pub modification_reason : Option Text

pub record AttendanceAuditLog : Type 0 where
  pub attendance_record_id : ℕ
  pub changed_by_id : ℕ
  pub previous_status : RecordStatus
  pub new_status : RecordStatus
  pub reason : Text

-- An entry of the challenge store: its key, and when it expires.
pub record Challenge : Type 0 where
  pub session_id : ℕ
  pub challenge_id : ℕ
  pub expiry : ℕ

-- `challenges` is the store that is kept in the process, the rest are tables.
pub record Db : Type 0 where
  pub programs : List Program
  pub memberships : List ProgramMembership
  pub sessions : List AttendanceSession
  pub records : List AttendanceRecord
  pub audit : List AttendanceAuditLog
  pub challenges : List Challenge

pub data Error : Type 0 where
  not_configured title_required title_too_long invalid_present_window : Error
  invalid_late_window program_missing already_open session_not_found : Error
  attendance_closed invalid_payload qr_expired invalid_qr check_in_failed : Error
  reason_required record_not_found no_row no_signing_secret : Error

-- A step may raise, and what was committed before stays.
abbrev pub Step : Type 0 → Type 0
Step A = Db → Result Error A × Db

abbrev pub and_then : {A B : Type 0} → Result Error A × Db → (A → Step B) → Result Error B × Db
and_then (ok a, db) f = f a db
and_then (err e, db) f = (err e, db)

infixl 5 ◌>>=◌ ◌>>◌
abbrev pub ◌>>=◌ : {A B : Type 0} → Step A → (A → Step B) → Step B
(m >>= f) db = and_then (m db) f

abbrev pub ◌>>◌ : {A B : Type 0} → Step A → Step B → Step B
m >> k = m >>= λ _. k

abbrev pub return : {A : Type 0} → A → Step A
return a db = (ok a, db)

abbrev pub raise : {A : Type 0} → Error → Step A
raise e db = (err e, db)

abbrev pub fail_if : Bool → Error → Step (Unit {0})
fail_if true e db = (err e, db)
fail_if false e db = (ok tt, db)

abbrev pub or_fail : {A : Type 0} → Option A → Error → Step A
or_fail none e db = (err e, db)
or_fail (some a) e db = (ok a, db)

abbrev pub query : {A : Type 0} → (Db → A) → Step A
query f db = (ok (f db), db)

abbrev pub execute : (Db → Db) → Step (Unit {0})
execute f db = (ok tt, f db)

abbrev pub second : ℕ
second = 1_000_000

abbrev pub presidential_scholars_slug : Text
presidential_scholars_slug =
    112 ∷ 114 ∷ 101 ∷ 115 ∷ 105 ∷ 100 ∷ 101 ∷ 110 ∷ 116 ∷ 105 ∷ 97 ∷ 108 ∷ 95 ∷ 115 ∷ 99 ∷ 104 ∷ 111
    ∷ 108 ∷ 97 ∷ 114 ∷ 115 ∷ []

abbrev pub is_open : SessionStatus → Bool
is_open opened = true
is_open closed = false

-- `RECORD_CHECKED_IN`
abbrev pub is_checked_in : RecordStatus → Bool
is_checked_in present = true
is_checked_in late = true
is_checked_in _ = false

abbrev pub same_status : RecordStatus → RecordStatus → Bool
same_status present present = true
same_status late late = true
same_status absent absent = true
same_status excused excused = true
same_status _ _ = false

abbrev pub has_session_id : ℕ → AttendanceSession → Bool
has_session_id i s = s.id == i

abbrev pub has_record_id : ℕ → AttendanceRecord → Bool
has_record_id i r = r.id == i

-- The key of `uq_attendance_record_session_student`.
abbrev pub is_record : ℕ → ℕ → AttendanceRecord → Bool
is_record session student r = r.session_id == session && r.student_id == student

-- A live session of a program.
abbrev pub is_live : ℕ → AttendanceSession → Bool
is_live program s = s.program_id == program && is_open s.status

-- An active membership of a program.
abbrev pub is_current_member : ℕ → ProgramMembership → Bool
is_current_member program m = m.program_id == program && m.is_current
