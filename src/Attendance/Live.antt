-- ===== src/Attendance/Live.antt =====
-- One live session for a program: the steps of sessions.
pub mod Run
use lc_connect.Base.{
  count_if-none, ℕ, ◌≤◌, ◌+◌, ◌*◌, ◌≡◌, refl, sym, subst, Bool, true, false, not, Option, none,
  some, List, [], ◌∷◌, arith, if◌then◌else◌, Result, ok, err, find?, count_if, filter_rows,
  update_first, weight, leb, Bool-cases, Option-cases, inl, inr, Text, strip, ℕ_discrete, is_some,
}
use lc_connect.Attendance.Defs.{
  AttendanceSession, AttendanceRecord, RecordStatus, Db, Error, no_row, session_not_found,
  already_open, execute, return, fail_if, Step, and_then, ◌>>=◌, ◌>>◌, is_open, is_live,
  has_session_id, second, or_fail, query,
}
use lc_connect.Attendance.Sessions.{
  Settings, session_close_at, write_close, clear_session_challenges, close_locked, close_session,
  maybe_auto_close_session, close_session_by_id, close_expired, sweep_expired_sessions,
  start_session, new_session, present_seconds, late_seconds, get_session_or_404, get_open_session,
  closed_session, get_honors_program_id,
}
use lc_connect.Attendance.CheckIn.{
  Clock, issue_qr_challenge, check_in, check_code, record_check_in, insert_check_in,
  store_challenge,
}
use lc_connect.Attendance.Correction.{manual_correct_record, write_correction}
use lc_connect.Attendance.Reports.{get_active_for_student, build_dashboard, live_session, refresh}

-- The partial unique index of the sessions.
abbrev pub OneLive : Db → Type 0
OneLive db = (program : ℕ) → count_if (is_live program) db.sessions ≤ 1

-- A step that keeps it.
abbrev pub Keeps : {A : Type 0} → Step A → Type 0
Keeps m = (db : Db) → OneLive db → OneLive (m db).1

and_then-Keeps :
    {A B : Type 0} (r : Result Error A × Db) (f : A → Step B)
    → OneLive r.1
    → ((a : A) → Keeps (f a))
    → OneLive (and_then r f).1
and_then-Keeps (ok a, db) f one k = k a db one
and_then-Keeps (err e, db) f one k = one

pub Keeps->>= :
    {A B : Type 0} (m : Step A) (f : A → Step B)
    → Keeps m
    → ((a : A) → Keeps (f a))
    → Keeps (m >>= f)
Keeps->>= m f h k db one = and_then-Keeps (m db) f (h db one) k

-- A step that leaves the sessions alone.
pub same-Keeps : {A : Type 0} (m : Step A) → ((db : Db) → (m db).1.sessions ≡ db.sessions) → Keeps m
same-Keeps m h db one program =
    subst (λ ss. count_if (is_live program) ss ≤ 1) (sym (h db)) (one program)

pub or_fail-Keeps : {A : Type 0} (o : Option A) (e : Error) → Keeps (or_fail o e)
or_fail-Keeps none e db one = one
or_fail-Keeps (some a) e db one = one

pub fail_if-Keeps : (b : Bool) (e : Error) → Keeps (fail_if b e)
fail_if-Keeps true e db one = one
fail_if-Keeps false e db one = one

count_if-update_first_le :
    {A : Type 0} (p q : A → Bool) (y : A) (xs : List A)
    → q y ≡ false
    → count_if q (update_first p (λ _. y) xs) ≤ count_if q xs
unfolding count_if update_first
count_if-update_first_le p q y [] h = omega arith
count_if-update_first_le p q y (x ∷ xs) h = elim (Bool-cases (p x)) [
  | inl e ↦ ground (arith, e, h)
  | inr e ↦ ground (arith, e, count_if-update_first_le p q y xs h)
]

closed-is_live :
    (now program : ℕ) (s : AttendanceSession) → is_live program (closed_session now s) ≡ false
closed-is_live now program s = ground arith

at_most : {n m : ℕ} → n ≤ m → m ≤ 1 → n ≤ 1
at_most h k = omega arith

write_close-OneLive :
    (new_id : ℕ → ℕ) (now : ℕ) (s : AttendanceSession) (db : Db)
    → OneLive db
    → OneLive (write_close new_id now s db)
unfolding write_close clear_session_challenges
write_close-OneLive new_id now s db one program =
    at_most
      (count_if-update_first_le (has_session_id s.id) (is_live program) (closed_session now s)
        db.sessions (closed-is_live now program s))
      (one program)

module _ (new_id : ℕ → ℕ) where
  close_locked-Keeps : (now : ℕ) (s : AttendanceSession) → Keeps (close_locked new_id now s)
  close_locked-Keeps now s db one = elim (Bool-cases (is_open s.status)) [
    | inl e ↦ rw e (write_close-OneLive new_id now s db one)
    | inr e ↦ rw e one
  ]

  close_session-Keeps : (now : ℕ) (s : AttendanceSession) → Keeps (close_session new_id now s)
  unfolding close_session
  close_session-Keeps now s db one = elim (Bool-cases (is_open s.status)) [
    | inl e ↦ rw e (
        Keeps->>= (or_fail (find? (has_session_id s.id) db.sessions) no_row)
          (close_locked new_id now) (or_fail-Keeps _ no_row) (close_locked-Keeps now) db one)
    | inr e ↦ rw e one
  ]

  pub maybe_auto_close_session-Keeps :
      (now : ℕ) (s : AttendanceSession) → Keeps (maybe_auto_close_session new_id now s)
  unfolding maybe_auto_close_session
  maybe_auto_close_session-Keeps now s db one = elim (Bool-cases (is_open s.status)) [
    | inr e ↦ rw e one
    | inl e ↦ elim (Bool-cases (leb now (session_close_at s))) [
      | inl late ↦ rw (e, late) one
      | inr late ↦ rw (e, late) (close_session-Keeps now s db one)
    ]
  ]

  pub get_session_or_404-Keeps : (i : ℕ) → Keeps (get_session_or_404 i)
  get_session_or_404-Keeps i db one =
      or_fail-Keeps (find? (has_session_id i) db.sessions) session_not_found db one

  pub close_session_by_id-Keeps : (now i : ℕ) → Keeps (close_session_by_id new_id now i)
  unfolding close_session_by_id
  close_session_by_id-Keeps now i =
      Keeps->>= (get_session_or_404 i) _ (get_session_or_404-Keeps i) (λ found.
        Keeps->>= (maybe_auto_close_session new_id now found) _
          (maybe_auto_close_session-Keeps now found)
          (λ s db one. elim (Bool-cases (is_open s.status)) [
            | inl e ↦ rw e (close_session-Keeps now s db one)
            | inr e ↦ rw e one
          ]))

  close_expired-Keeps :
      (clock : AttendanceSession → ℕ) (rows : List AttendanceSession)
      → Keeps (close_expired new_id clock rows)
  unfolding close_expired
  close_expired-Keeps clock [] db one = one
  close_expired-Keeps clock (s ∷ rows) db one =
      elim (Bool-cases (leb (clock s) (session_close_at s))) [
        | inl e ↦ rw e (close_expired-Keeps clock rows db one)
        | inr e ↦ rw e (
            Keeps->>= (close_session new_id (clock s) s) _ (close_session-Keeps (clock s) s)
              (λ done.
                Keeps->>= (close_expired new_id clock rows) _ (close_expired-Keeps clock rows)
                  (λ ids db' one'. one'))
              db one)
      ]

  pub sweep_expired_sessions-Keeps :
      (clock : AttendanceSession → ℕ) → Keeps (sweep_expired_sessions new_id clock)
  unfolding sweep_expired_sessions
  sweep_expired_sessions-Keeps clock db one =
      close_expired-Keeps clock (filter_rows (λ s. is_open s.status) db.sessions) db one

-- No live session is found: a new one is the only one.
new-live :
    (program other : ℕ) (s : AttendanceSession) (ss : List AttendanceSession)
    → s.program_id ≡ program
    → find? (is_live program) ss ≡ none
    → count_if (is_live other) ss ≤ 1
    → count_if (is_live other) (s ∷ ss) ≤ 1
unfolding count_if
new-live program other s ss own fresh one = elim (ℕ_discrete program other) [
  | yes e ↦
      ground (
        arith,
        subst (λ k. count_if (is_live k) ss ≡ 0) e (count_if-none (is_live program) ss fresh),
      )
  | no ne ↦ ground arith
]

pub start_session-Keeps :
    (settings : Settings) (new_id now actor : ℕ) (title : Text) (present late : Option ℕ)
    → Keeps (start_session settings new_id now actor title present late)
unfolding start_session
start_session-Keeps settings new_id now actor title present late db one other =
    elim (Option-cases (get_honors_program_id db)) [
      | inl h ↦ ground (arith, h, one other)
      | inr (program, h) ↦ elim (Option-cases (find? (is_live program) db.sessions)) [
        | inr (t, e) ↦ ground (arith, h, e, one other)
        | inl e ↦ ground (
          arith,
          h,
          e,
          one other,
          new-live program other
              (new_session settings new_id program (strip title) actor now
                (present_seconds settings present) (late_seconds settings late))
              db.sessions refl e (one other),
        )
      ]
    ]
