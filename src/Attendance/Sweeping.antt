-- ===== src/Attendance/Sweeping.antt =====
-- What a close leaves open: the rows of sessions.
pub mod Run
use lc_connect.Base.{
  ℕ, ◌≤◌, ◌≡◌, ◌≢◌, ◌⊎◌, refl, sym, subst, ap, ◌∙◌, Bool, true, false, not, Option, none, some,
  List, [], ◌∷◌, arith, leb, if◌then◌else◌, Result, ok, err, find?, find?-passes,
  find?-update_first_self, find?-update_first_other, filter_rows, update_first, Bool-cases,
  Option-cases, Result-cases, inl, inr, ℕ_discrete,
}
use lc_connect.Attendance.Defs.{
  AttendanceSession, Db, Error, is_open, has_session_id, Step, and_then, ◌>>=◌, return,
}
use lc_connect.Attendance.Sessions.{
  session_close_at, closed_session, write_close, clear_session_challenges, close_session,
  close_expired, sweep_expired_sessions,
}

-- A close replaces the row of its id by a closed one, and leaves all others.
close_row :
    (now i : ℕ) (r : AttendanceSession) (xs : List AttendanceSession) {t : AttendanceSession}
    → find? (has_session_id i) (update_first (has_session_id r.id) (λ _. closed_session now r) xs)
      ≡ some t
    → is_open t.status ≡ true
    → find? (has_session_id i) xs ≡ some t
unfolding find? update_first
close_row now i r [] {t} h live = ground arith
close_row now i r (x ∷ xs) {t} h live = elim (Bool-cases (has_session_id r.id x)) [
  | inl e ↦ ground (arith, e)
  | inr e ↦ elim (Bool-cases (has_session_id i x)) [
    | inl e' ↦ ground (arith, e, e')
    | inr e' ↦ ground (arith, e, e', close_row now i r xs {t = t})
  ]
]

closed_row :
    (now : ℕ) (r : AttendanceSession) (xs : List AttendanceSession) {t : AttendanceSession}
    → find?
        (has_session_id r.id)
        (update_first (has_session_id r.id) (λ _. closed_session now r) xs)
      ≡ some t
    → is_open t.status ≡ false
unfolding find? update_first
closed_row now r [] {t} h = ground arith
closed_row now r (x ∷ xs) {t} h = elim (Bool-cases (has_session_id r.id x)) [
  | inl e ↦ ground (arith, e)
  | inr e ↦ ground (arith, e, closed_row now r xs {t = t})
]

true-ne-false : {b : Bool} → b ≡ true → b ≡ false → ⊥
true-ne-false h k = cc

same_session : (i : ℕ) (s : AttendanceSession) → has_session_id i s ≡ true → s.id ≡ i
same_session i s h = ground arith

write_close_gone :
    (new_id : ℕ → ℕ) (now i : ℕ) (r : AttendanceSession) (db : Db) {t : AttendanceSession}
    → find? (has_session_id i) (write_close new_id now r db).sessions ≡ some t
    → is_open t.status ≡ true
    → (find? (has_session_id i) db.sessions ≡ some t) × (r.id ≢ i)
unfolding write_close clear_session_challenges
write_close_gone new_id now i r db {t} h live = (
  close_row now i r db.sessions h live,
  λ e. true-ne-false live (
      closed_row now r db.sessions (
        subst
          (λ k.
            find? (has_session_id k)
              (update_first (has_session_id r.id) (λ _. closed_session now r) db.sessions)
            ≡ some t)
          (sym e) h)),
)

id_of_found :
    (i : ℕ) (t : AttendanceSession) (xs : List AttendanceSession)
    → find? (has_session_id i) xs ≡ some t
    → t.id ≡ i
id_of_found i t xs h = same_session i t (find?-passes (has_session_id i) xs h)

pub ok-inj : {A : Type 0} {a b : A} → ◌≡◌ {A = Result Error A} (ok a) (ok b) → a ≡ b
ok-inj h = cc

pub err-ne-ok : {A : Type 0} {e : Error} {b : A} → ◌≡◌ {A = Result Error A} (err e) (ok b) → ⊥
err-ne-ok h = cc

pub some-inj :
    {a b : AttendanceSession} → ◌≡◌ {A = Option AttendanceSession} (some a) (some b) → a ≡ b
some-inj h = cc

same_row :
    (i : ℕ) (s r t : AttendanceSession) (xs : List AttendanceSession)
    → find? (has_session_id i) xs ≡ some t
    → find? (has_session_id s.id) xs ≡ some r
    → t ≡ s
    → r ≡ t
same_row i s r t xs h f p = some-inj (
    sym f
    ∙ ap (λ k. find? (has_session_id k) xs) (ap (λ x. x.id) (sym p) ∙ id_of_found i t xs h)
    ∙ h)

-- A session that is open after a close was there before, and is not the one that was closed.
pub close_session-other :
    (new_id : ℕ → ℕ) (now i : ℕ) (s : AttendanceSession) (db : Db) {u t : AttendanceSession}
    → (close_session new_id now s db).0 ≡ ok u
    → find? (has_session_id i) (close_session new_id now s db).1.sessions ≡ some t
    → is_open t.status ≡ true
    → (find? (has_session_id i) db.sessions ≡ some t) × (t ≢ s)
unfolding close_session
close_session-other new_id now i s db {u} {t} done h live = elim (Bool-cases (is_open s.status)) [
  | inr e ↦ (rw e at h, λ p. true-ne-false live (subst (λ x. is_open x.status ≡ false) (sym p) e))
  | inl e ↦ elim (Option-cases (find? (has_session_id s.id) db.sessions)) [
    | inl f ↦ ground (arith, e, f)
    | inr (r, f) ↦ elim (Bool-cases (is_open r.status)) [
      | inr c ↦ (
        rw (e, f, c) at h,
        λ p. true-ne-false live (
            subst (λ x. is_open x.status ≡ false)
              (same_row i s r t db.sessions (rw (e, f, c) at h) f p) c),
      )
      | inl c ↦
          let gone = write_close_gone new_id now i r db {t = t} (rw (e, f, c) at h) live in
          (
            gone.0,
            λ p. gone.1 (
                id_of_found s.id r db.sessions f
                ∙ ap (λ x. x.id) (sym p)
                ∙ id_of_found i t db.sessions gone.0),
          )
    ]
  ]
]
