-- ===== src/Connections/Tests.antt =====
-- Two students: one asks, the other accepts, and they part.
use lc_connect.Base.{
  ℕ, ◌≡◌, refl, true, false, none, some, List, [], ◌∷◌, ok, find?, filter_rows, update_first,
  is_some,
}
use lc_connect.People.{User, student}
use lc_connect.Social.{
  ConnectionRequest, pending, accepted, users_are_blocked, users_are_connected, is_pending,
}
use lc_connect.Connections.Calls.{Call, send, accept, run, step, perform}
use lc_connect.Connections.Requests.{
  Db, Draws, ConnectionRequestCreate, send_connection_request, ask_or_connect, ask, accept_request,
  connect, match_for, existing_match, active_match, ensure_dm_conversation, tell, new_match, is_of,
  multiple_rows,
}
use lc_connect.Connections.Pairs.Run.{connected-active_match}
use lc_connect.Connections.Accepting.{accept_request-connected}

abbrev first : User
first = record {
  id = 2;
  role = student;
  is_active = true;
  is_open = true;
  is_verified = true;
  is_deleted = false;
}

abbrev empty : Db
empty = record {
  users = first ∷ record first { id = 1 } ∷ [];
  requests = [];
  matches = [];
  blocks = [];
  conversations = [];
  notices = [];
}

abbrev ids : Draws
ids = record { request_id = 10; match_id = 20; conversation_id = 30 }

abbrev hello : ConnectionRequestCreate
hello = record { receiver_id = 1; intent = none; note = none }

abbrev calls : List Call
calls = send ids 100 2 hello ∷ accept ids 200 1 10 ∷ []

connected-active_match_example :
    users_are_connected {E = ℕ} 500 (run calls empty).matches 2 1 ≡ ok true
unfolding run step perform send_connection_request ask_or_connect ask accept_request connect
    match_for existing_match active_match ensure_dm_conversation tell users_are_blocked
    users_are_connected find? filter_rows update_first
connected-active_match_example = connected-active_match 500 calls empty 2 1 refl

abbrev asked : ConnectionRequest
asked = record {
  id = 10;
  sender_id = 2;
  receiver_id = 1;
  intent = none;
  note = none;
  status = pending;
  created_at = 100;
  responded_at = none;
}

abbrev waiting : Db
waiting = record empty { requests = asked ∷ [] }

abbrev joined : Db
joined = record waiting {
  requests = record asked { status = accepted; responded_at = some 200 } ∷ [];
  matches = new_match 20 1 2 200 ∷ [];
  conversations = record { id = 30; match_id = 20; members = 1 ∷ 2 ∷ [] } ∷ [];
  notices = (2, 1) ∷ [];
}

accept_request-connected_example :
    ((asked.receiver_id ≡ 1)
      × (is_pending asked.status ≡ true)
      × (users_are_blocked multiple_rows waiting.blocks 2 1 ≡ ok false))
    × (active_match 2 1 joined.matches ≡ some (new_match 20 1 2 200))
    × (is_some (find? (is_of 20) joined.conversations) ≡ true)
unfolding accept_request connect match_for existing_match active_match ensure_dm_conversation tell
    users_are_blocked find? filter_rows update_first
accept_request-connected_example =
    accept_request-connected ids 200 1 10 waiting {r = asked} {m = new_match 20 1 2 200}
      {db' = joined} refl refl
