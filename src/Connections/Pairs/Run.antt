-- ===== src/Connections/Pairs/Run.antt =====
-- One row for each pair of people: every call, and the policy that reads the rows.
use lc_connect.Base.{
  ℕ, ◌≡◌, refl, sym, subst, ◌&&◌, Option, none, some, List, [], ◌∷◌, arith, ◌==◌, is_some, Result,
  ok, err, OnOk, raise_if, or_raise, ◌>>=◌, find?, count_if, Bool-cases, Result-cases, inl, inr,
}
use lc_connect.Social.{is_pending, users_are_blocked, users_are_connected, ConnectionRequest}
use lc_connect.Connections.Calls.{
  Call, send, withdraw, disconnect, accept, decline, perform, step, run,
}
use lc_connect.Connections.Requests.{
  Db, Draws, ordered_pair, is_pair, is_live, existing_match, active_match, connect,
  ConnectionRequestCreate, ask, ask_or_connect, send_connection_request, withdraw_request,
  disconnect_from_user, accept_request, decline_request, tell, is_from_to, receiver_of, pending_of,
  sent_by, sent_to, has_id, multiple_rows, not_allowed, already_matched, connection_not_found,
}
use lc_connect.Connections.Pairs.{Paired, connected-active, set_end-Paired, match_for-Paired}

connect-Paired :
    (ids : Draws) (now : ℕ) (r : ConnectionRequest) (db : Db)
    → Paired db.matches
    → Paired (connect ids now r db).1.matches
unfolding connect
connect-Paired ids now r db h =
    match_for-Paired ids.match_id now r.sender_id r.receiver_id db.matches h

-- Asking leaves the matches alone, unless it connects.
ask-Paired :
    (i now user : ℕ) (p : ConnectionRequestCreate) (old : Option ConnectionRequest) (db : Db)
    → Paired db.matches
    → OnOk (λ db'. Paired db'.matches) (ask i now user p old db)
unfolding ask tell
ask-Paired i now user p none db h = h
ask-Paired i now user p (some r) db h = elim (Bool-cases (is_pending r.status)) [
  | inl e ↦ rw e tt
  | inr e ↦ rw e h
]

ask_or_connect-Paired :
    (ids : Draws) (now user : ℕ) (p : ConnectionRequestCreate) (reverse : Option ConnectionRequest)
    (db : Db)
    → Paired db.matches
    → OnOk (λ db'. Paired db'.matches) (ask_or_connect ids now user p reverse db)
unfolding ask_or_connect tell
ask_or_connect-Paired ids now user p (some r) db h = connect-Paired ids now r db h
ask_or_connect-Paired ids now user p none db h =
    ask-Paired ids.request_id now user p (find? (is_from_to user p.receiver_id) db.requests) db h

after-OnOk :
    {E A B : Type 0} (P : B → Type 0) (m : Result E A) (f : A → Result E B)
    → ((a : A) → OnOk P (f a))
    → OnOk P (m >>= f)
after-OnOk P (ok a) f h = h a
after-OnOk P (err e) f h = tt

send-Paired :
    (ids : Draws) (now user : ℕ) (p : ConnectionRequestCreate) (db : Db)
    → Paired db.matches
    → OnOk (λ db'. Paired db'.matches) (send_connection_request ids now user p db)
unfolding send_connection_request
send-Paired ids now user p db h =
    after-OnOk (λ db'. Paired db'.matches) (raise_if _ _) _
      (λ _.
        after-OnOk (λ db'. Paired db'.matches)
          (receiver_of (find? (λ u. u.id == p.receiver_id) db.users)) _
          (λ _.
            after-OnOk (λ db'. Paired db'.matches)
              (users_are_blocked multiple_rows db.blocks user p.receiver_id) _
              (λ b.
                after-OnOk (λ db'. Paired db'.matches) (raise_if b not_allowed) _
                  (λ _.
                    after-OnOk (λ db'. Paired db'.matches)
                      (raise_if (is_some (active_match user p.receiver_id db.matches))
                        already_matched)
                      _
                      (λ _.
                        ask_or_connect-Paired ids now user p
                          (find? (λ r. is_from_to p.receiver_id user r && is_pending r.status)
                            db.requests)
                          db h)))))

accept-Paired :
    (ids : Draws) (now user i : ℕ) (db : Db)
    → Paired db.matches
    → OnOk (λ r. Paired r.1.matches) (accept_request ids now user i db)
unfolding accept_request tell
accept-Paired ids now user i db h =
    after-OnOk (λ r. Paired r.1.matches)
      (pending_of (sent_to user (find? (has_id i) db.requests)) (find? (has_id i) db.requests)) _
      (λ r.
        after-OnOk (λ r. Paired r.1.matches)
          (users_are_blocked multiple_rows db.blocks r.sender_id r.receiver_id) _
          (λ b.
            after-OnOk (λ r. Paired r.1.matches) (raise_if b not_allowed) _
              (λ _. connect-Paired ids now r db h)))

disconnect-Paired :
    (now user other : ℕ) (db : Db)
    → Paired db.matches
    → OnOk (λ db'. Paired db'.matches) (disconnect_from_user now user other db)
unfolding disconnect_from_user
disconnect-Paired now user other db h =
    after-OnOk (λ db'. Paired db'.matches)
      (or_raise (existing_match user other db.matches) connection_not_found) _
      (λ m. elim (Bool-cases (is_live m)) [
        | inl e ↦ rw e (
            set_end-Paired (is_pair (ordered_pair user other).0 (ordered_pair user other).1)
              (some now) db.matches h)
        | inr e ↦ rw e h
      ])

perform-Paired :
    (c : Call) (db : Db) → Paired db.matches → OnOk (λ db'. Paired db'.matches) (perform c db)
unfolding perform withdraw_request decline_request
perform-Paired (send ids now user p) db h = send-Paired ids now user p db h
perform-Paired (withdraw user i) db h =
    after-OnOk (λ db'. Paired db'.matches)
      (pending_of (sent_by user (find? (has_id i) db.requests)) (find? (has_id i) db.requests)) _
      (λ r. h)
perform-Paired (disconnect now user other) db h = disconnect-Paired now user other db h
perform-Paired (accept ids now user i) db h =
    elim (Result-cases (accept_request ids now user i db)) [
      | inl ((m, db'), e) ↦
          rw e (subst (OnOk (λ r. Paired r.1.matches)) e (accept-Paired ids now user i db h))
      | inr (x, e) ↦ rw e tt
    ]
perform-Paired (decline now user i) db h =
    after-OnOk (λ db'. Paired db'.matches)
      (pending_of (sent_to user (find? (has_id i) db.requests)) (find? (has_id i) db.requests)) _
      (λ r. h)

step-Paired : (c : Call) (db : Db) → Paired db.matches → Paired (step c db).matches
unfolding step
step-Paired c db h = elim (Result-cases (perform c db)) [
  | inl (db', e) ↦ rw (e, step) (subst (OnOk (λ db'. Paired db'.matches)) e (perform-Paired c db h))
  | inr (x, e) ↦ rw (e, step) h
]

run-Paired : (cs : List Call) (db : Db) → Paired db.matches → Paired (run cs db).matches
unfolding run
run-Paired [] db h = h
run-Paired (c ∷ cs) db h = run-Paired cs (step c db) (step-Paired c db h)

-- Whatever calls are made from a database without matches, the check whether two people are
-- connected raises nothing, and it answers yes exactly where the pair's match row is not ended.
pub connected-active_match :
    {E : Type 0} (multiple : E) (cs : List Call) (db : Db) (a b : ℕ)
    → db.matches ≡ []
    → users_are_connected multiple (run cs db).matches a b
      ≡ ok (is_some (active_match a b (run cs db).matches))
unfolding users_are_connected active_match existing_match count_if
connected-active_match multiple cs db a b empty =
    let paired = run-Paired cs db (subst Paired (sym empty) (tt, λ x y. omega arith)) in
    rw
      (connected-active multiple a b (run cs db).matches paired.0
        (paired.1 (ordered_pair a b).0 (ordered_pair a b).1))
      refl
