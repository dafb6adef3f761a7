-- ===== src/Attendance/Sweeping/Run.antt =====
-- What the sweep leaves open.
use lc_connect.Base.{
  ℕ, ◌≤◌, ◌≡◌, ◌⊎◌, refl, sym, subst, ap, ◌∙◌, true, some, List, [], ◌∷◌, arith, leb, Result, ok,
  err, find?, filter_rows, Bool-cases, Result-cases, inl, inr,
}
use lc_connect.Attendance.Defs.{
  AttendanceSession, Db, Error, is_open, has_session_id, Step, and_then, ◌>>=◌, return,
}
use lc_connect.Attendance.Sessions.{
  session_close_at, close_session, close_expired, sweep_expired_sessions,
}
use lc_connect.Attendance.Sweeping.{some-inj, ok-inj, err-ne-ok, close_session-other}

abbrev Among : AttendanceSession → List AttendanceSession → Type 0
Among t [] = ⊥
Among t (s ∷ rows) = (t ≡ s) ⊎ Among t rows

-- The row of an id is closed, still to come in the loop, or not over at a time.
abbrev Handled : ℕ → ℕ → List AttendanceSession → Db → Type 0
Handled t0 i rows db =
    (t : AttendanceSession)
    → find? (has_session_id i) db.sessions ≡ some t
    → is_open t.status ≡ true
    → (t0 ≤ session_close_at t) ⊎ Among t rows

skip_row :
    (t0 now i : ℕ) (s : AttendanceSession) (rows : List AttendanceSession) (db : Db)
    → t0 ≤ now
    → leb now (session_close_at s) ≡ true
    → Handled t0 i (s ∷ rows) db
    → Handled t0 i rows db
skip_row t0 now i s rows db late e h t f live = elim (h t f live) [
  | inl k ↦ inl k
  | inr (inl p) ↦ inl (subst (λ x. t0 ≤ session_close_at x) (sym p) (ground arith))
  | inr (inr k) ↦ inr k
]

drop_row :
    (new_id : ℕ → ℕ) (t0 now i : ℕ) (s : AttendanceSession) (rows : List AttendanceSession)
    (db : Db) {u : AttendanceSession}
    → (close_session new_id now s db).0 ≡ ok u
    → Handled t0 i (s ∷ rows) db
    → Handled t0 i rows (close_session new_id now s db).1
drop_row new_id t0 now i s rows db {u} done h t f live =
    let other = close_session-other new_id now i s db {u = u} {t = t} done f live in
    elim (h t other.0 live) [
      | inl k ↦ inl k
      | inr (inl p) ↦ absurd (other.1 p)
      | inr (inr k) ↦ inr k
    ]

and_then-ok :
    {A B : Type 0} (p : Result Error A × Db) (f : A → Step B) {u : A}
    → p.0 ≡ ok u
    → and_then p f ≡ f u p.1
and_then-ok (ok a, db) f {u} h = ap (λ x. f x db) (ok-inj h)
and_then-ok (err e, db) f {u} h = absurd (err-ne-ok h)

rest_of :
    (q : Result Error (List ℕ) × Db) (x : ℕ) {ids : List ℕ}
    → (and_then q (λ ids'. return (x ∷ ids'))).0 ≡ ok ids
    → (rest : List ℕ) × (q.0 ≡ ok rest)
rest_of (ok r, db) x h = (r, refl)
rest_of (err e, db) x h = absurd (err-ne-ok h)

rest_db :
    (q : Result Error (List ℕ) × Db) (x : ℕ) → (and_then q (λ ids'. return (x ∷ ids'))).1 ≡ q.1
rest_db (ok r, db) x = refl
rest_db (err e, db) x = refl

module _ (new_id : ℕ → ℕ) (t0 : ℕ) (clock : AttendanceSession → ℕ) where
  close_expired-Handled :
      (i : ℕ) (rows : List AttendanceSession) (db : Db) {ids : List ℕ}
      → ((s : AttendanceSession) → t0 ≤ clock s)
      → (close_expired new_id clock rows db).0 ≡ ok ids
      → Handled t0 i rows db
      → Handled t0 i [] (close_expired new_id clock rows db).1
  unfolding close_expired
  close_expired-Handled i [] db late done h = h
  close_expired-Handled i (s ∷ rows) db {ids} late done h =
      elim (Bool-cases (leb (clock s) (session_close_at s))) [
        | inl e ↦ rw e (
            close_expired-Handled i rows db {ids = ids} late (rw e at done)
              (skip_row t0 (clock s) i s rows db (late s) e h))
        | inr e ↦ elim (Result-cases (close_session new_id (clock s) s db).0) [
          | inr (x, f) ↦ ground (arith, e, f)
          | inl (u, f) ↦
              let q = close_expired new_id clock rows (close_session new_id (clock s) s db).1 in
              let eq =
                and_then-ok (close_session new_id (clock s) s db)
                  (λ _. close_expired new_id clock rows >>= λ ids'. return (s.id ∷ ids')) f in
              let rest = rest_of q s.id {ids = ids} (ap (λ r. r.0) (sym eq) ∙ (rw e at done)) in
              rw e (
                subst (Handled t0 i []) (sym (ap (λ r. r.1) eq ∙ rest_db q s.id)) (
                  close_expired-Handled i rows (close_session new_id (clock s) s db).1
                    {ids = rest.0} late rest.1 (drop_row new_id t0 (clock s) i s rows db f h)))
        ]
      ]

open_row-Among :
    (i : ℕ) (t : AttendanceSession) (xs : List AttendanceSession)
    → find? (has_session_id i) xs ≡ some t
    → is_open t.status ≡ true
    → Among t (filter_rows (λ s. is_open s.status) xs)
unfolding find? filter_rows
open_row-Among i t [] h live = ground arith
open_row-Among i t (x ∷ xs) h live = elim (Bool-cases (has_session_id i x)) [
  | inl e ↦
      let p = some-inj (rw e at h) in
      rw (subst (λ y. is_open y.status ≡ true) (sym p) live) (inl (sym p))
  | inr e ↦ elim (Bool-cases (is_open x.status)) [
    | inl o ↦ rw o (inr (open_row-Among i t xs (rw e at h) live))
    | inr o ↦ rw o (open_row-Among i t xs (rw e at h) live)
  ]
]

-- After a sweep that raises nothing, a session that is still open is not over: its time to close is not
-- before a time that none of the sweep's clock readings precedes.
pub sweep_expired_sessions-done :
    (new_id : ℕ → ℕ) (t0 : ℕ) (clock : AttendanceSession → ℕ) (i : ℕ) (db : Db) {ids : List ℕ}
    {t : AttendanceSession}
    → ((s : AttendanceSession) → t0 ≤ clock s)
    → (sweep_expired_sessions new_id clock db).0 ≡ ok ids
    → find? (has_session_id i) (sweep_expired_sessions new_id clock db).1.sessions ≡ some t
    → is_open t.status ≡ true
    → t0 ≤ session_close_at t
unfolding sweep_expired_sessions
sweep_expired_sessions-done new_id t0 clock i db {ids} {t} late done found live =
    elim (close_expired-Handled new_id t0 clock i (filter_rows (λ s. is_open s.status) db.sessions)
      db {ids = ids} late done (λ t' f live'. inr (open_row-Among i t' db.sessions f live')) t found
      live) [ inl k ↦ k | inr k ↦ absurd k ]
