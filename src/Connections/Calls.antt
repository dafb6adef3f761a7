-- ===== src/Connections/Calls.antt =====
-- The calls of the connection routes, one after the other.
use lc_connect.Base.{ℕ, List, [], ◌∷◌, Result, ok, err, ◌>>=◌}
use lc_connect.Connections.Requests.{
  Db, Error, Draws, ConnectionRequestCreate, send_connection_request, withdraw_request,
  disconnect_from_user, accept_request, decline_request,
}

-- The routes, with what each draws and reads.
pub data Call : Type 0 where
  send : Draws → ℕ → ℕ → ConnectionRequestCreate → Call
  withdraw : ℕ → ℕ → Call
  disconnect : ℕ → ℕ → ℕ → Call
  accept : Draws → ℕ → ℕ → ℕ → Call
  decline : ℕ → ℕ → ℕ → Call

unfoldable pub perform : Call → Db → Result Error Db
perform (send ids now user p) db = send_connection_request ids now user p db
perform (withdraw user i) db = withdraw_request user i db
perform (disconnect now user other) db = disconnect_from_user now user other db
perform (accept ids now user i) db = do (m, db') ← accept_request ids now user i db; ok db'
perform (decline now user i) db = decline_request now user i db

unfoldable pub step : Call → Db → Db
step c db = elim (perform c db) [ ok db' ↦ db' | err e ↦ db ]

unfoldable pub run : List Call → Db → Db
run [] db = db
run (c ∷ cs) db = run cs (step c db)
