-- ===== src/Connections/Requests.antt =====
-- Asking to connect, answering and disconnecting: backend/app/features/connections (service.py, router.py)
-- and the conversation of a match (backend/app/shared/conversations.py). Each route commits once, so a
-- raised error leaves the database alone. `sorted` by text compares two ids as numbers.
use lc_connect.Base.{
  ℕ, Bool, false, not, ◌&&◌, ◌||◌, Option, none, some, List, [], ◌∷◌, ◌==◌, leb, if◌then◌else◌,
  is_some, Result, ok, err, ◌>>=◌, ◌>>◌, raise_if, or_raise, Text, find?, update_first,
  delete_first,
}
use lc_connect.People.{User}
use lc_connect.Social.{
  ConnectionRequest, RequestStatus, pending, accepted, declined, Match, Block, is_pending,
  users_are_blocked,
}

-- The conversation of a match, with its members.
pub record Conversation : Type 0 where
  pub id : ℕ
  pub match_id : ℕ
  pub members : List ℕ

-- `notices`: who was told of a request or of its acceptance, and by whom.
pub record Db : Type 0 where
  pub users : List User
  pub requests : List ConnectionRequest
  pub matches : List Match
  pub blocks : List Block
  pub conversations : List Conversation
  pub notices : List (ℕ × ℕ)

pub data Error : Type 0 where
  connect_with_yourself user_not_found not_allowed already_matched : Error
  request_exists pending_not_found connection_not_found multiple_rows : Error

abbrev pub ordered_pair : ℕ → ℕ → ℕ × ℕ
ordered_pair a b = if leb a b then (a, b) else (b, a)

abbrev pub is_pair : ℕ → ℕ → Match → Bool
is_pair left right m = m.user_a_id == left && m.user_b_id == right

abbrev pub is_live : Match → Bool
is_live m = not (is_some m.disconnected_at)

-- `uq_match_pair` leaves one row at most.
unfoldable pub existing_match : ℕ → ℕ → List Match → Option Match
existing_match a b matches = find? (is_pair (ordered_pair a b).0 (ordered_pair a b).1) matches

abbrev pub if_live : Option Match → Option Match
if_live none = none
if_live (some m) = if is_live m then some m else none

unfoldable pub active_match : ℕ → ℕ → List Match → Option Match
active_match a b matches = if_live (existing_match a b matches)

-- What a call draws: the ids of a request, of a match and of a conversation.
pub record Draws : Type 0 where
  pub request_id : ℕ
  pub match_id : ℕ
  pub conversation_id : ℕ

abbrev pub reconnect : Match → Match
reconnect m = record m { disconnected_at = none }

abbrev pub new_match : ℕ → ℕ → ℕ → ℕ → Match
new_match id left right now = record {
  id = id;
  user_a_id = left;
  user_b_id = right;
  created_at = now;
  disconnected_at = none;
}

-- `_match_for`, and the reset of the flag that follows each of its calls.
unfoldable pub match_for : ℕ → ℕ → ℕ → ℕ → List Match → Match × List Match
match_for id now a b matches = found (existing_match a b matches)
  where
    found : Option Match → Match × List Match
    found none = (
      new_match id (ordered_pair a b).0 (ordered_pair a b).1 now,
      new_match id (ordered_pair a b).0 (ordered_pair a b).1 now ∷ matches,
    )
    found (some m) = (
      reconnect m,
      update_first (is_pair (ordered_pair a b).0 (ordered_pair a b).1) reconnect matches,
    )

abbrev pub is_of : ℕ → Conversation → Bool
is_of match c = c.match_id == match

unfoldable pub ensure_dm_conversation : ℕ → Match → List Conversation → List Conversation
ensure_dm_conversation id m cs =
    if is_some (find? (is_of m.id) cs)
    then cs
    else record { id = id; match_id = m.id; members = m.user_a_id ∷ m.user_b_id ∷ [] } ∷ cs

abbrev pub has_id : ℕ → ConnectionRequest → Bool
has_id i r = r.id == i

abbrev pub is_from_to : ℕ → ℕ → ConnectionRequest → Bool
is_from_to sender receiver r = r.sender_id == sender && r.receiver_id == receiver

abbrev pub answer : RequestStatus → ℕ → ConnectionRequest → ConnectionRequest
answer status now r = record r { status = status; responded_at = some now }

-- The writes of an acceptance, whichever route leads to it.
unfoldable pub connect : Draws → ℕ → ConnectionRequest → Db → Match × Db
connect ids now r db =
    let found = match_for ids.match_id now r.sender_id r.receiver_id db.matches in
    (
      found.0,
      record db {
        requests = update_first (has_id r.id) (answer accepted now) db.requests;
        matches = found.1;
        conversations = ensure_dm_conversation ids.conversation_id found.0 db.conversations;
      },
    )

unfoldable pub tell : ℕ → ℕ → Db → Db
tell user actor db = record db { notices = (user, actor) ∷ db.notices }

pub record ConnectionRequestCreate : Type 0 where
  pub receiver_id : ℕ
  pub intent : Option Text
  pub note : Option Text

abbrev pub can_receive : User → Bool
can_receive u = u.is_active && u.is_open

abbrev pub receiver_of : Option User → Result Error (Unit {0})
receiver_of none = err user_not_found
receiver_of (some u) = raise_if (not (can_receive u)) user_not_found

-- Asking where no request of the other side is pending.
unfoldable pub ask :
    ℕ → ℕ → ℕ → ConnectionRequestCreate → Option ConnectionRequest → Db → Result Error Db
ask new_id now sender p none db = ok (
    tell p.receiver_id sender (record db {
      requests =
          record {
            id = new_id;
            sender_id = sender;
            receiver_id = p.receiver_id;
            intent = p.intent;
            note = p.note;
            status = pending;
            created_at = now;
            responded_at = none;
          }
          ∷ db.requests;
    }))
ask new_id now sender p (some r) db =
    if is_pending r.status
    then err request_exists
    else ok (
        tell p.receiver_id sender (record db {
          requests =
              update_first (has_id r.id)
                (λ r. record r {
                  status = pending;
                  intent = p.intent;
                  note = p.note;
                  created_at = now;
                  responded_at = none;
                })
                db.requests;
        }))

-- A pending request of the other side is accepted; else the caller asks.
unfoldable pub ask_or_connect :
    Draws → ℕ → ℕ → ConnectionRequestCreate → Option ConnectionRequest → Db → Result Error Db
ask_or_connect ids now sender p (some reverse) db =
    ok (tell p.receiver_id sender (connect ids now reverse db).1)
ask_or_connect ids now sender p none db =
    ask ids.request_id now sender p (find? (is_from_to sender p.receiver_id) db.requests) db

unfoldable pub send_connection_request :
    Draws → ℕ → ℕ → ConnectionRequestCreate → Db → Result Error Db
send_connection_request ids now sender p db = do
  raise_if (p.receiver_id == sender) connect_with_yourself
  receiver_of (find? (λ u. u.id == p.receiver_id) db.users)
  blocked ← users_are_blocked multiple_rows db.blocks sender p.receiver_id
  raise_if blocked not_allowed
  raise_if (is_some (active_match sender p.receiver_id db.matches)) already_matched
  ask_or_connect ids now sender p
      (find? (λ r. is_from_to p.receiver_id sender r && is_pending r.status) db.requests) db

-- A pending request that the caller may act on.
abbrev pub pending_of : Bool → Option ConnectionRequest → Result Error ConnectionRequest
pending_of own none = err pending_not_found
pending_of own (some r) =
    if not own || not (is_pending r.status) then err pending_not_found else ok r

abbrev pub sent_by : ℕ → Option ConnectionRequest → Bool
sent_by user none = false
sent_by user (some r) = r.sender_id == user

abbrev pub sent_to : ℕ → Option ConnectionRequest → Bool
sent_to user none = false
sent_to user (some r) = r.receiver_id == user

unfoldable pub withdraw_request : ℕ → ℕ → Db → Result Error Db
withdraw_request user i db = do
  r ← pending_of (sent_by user (find? (has_id i) db.requests)) (find? (has_id i) db.requests)
  ok (record db { requests = delete_first (has_id r.id) db.requests })

unfoldable pub disconnect_from_user : ℕ → ℕ → ℕ → Db → Result Error Db
disconnect_from_user now user other db = do
  m ← or_raise (existing_match user other db.matches) connection_not_found
  if is_live m
      then ok (record db {
        matches =
            update_first (is_pair (ordered_pair user other).0 (ordered_pair user other).1)
              (λ m. record m { disconnected_at = some now }) db.matches;
      })
      else ok db

unfoldable pub accept_request : Draws → ℕ → ℕ → ℕ → Db → Result Error (Match × Db)
accept_request ids now user i db = do
  r ← pending_of (sent_to user (find? (has_id i) db.requests)) (find? (has_id i) db.requests)
  blocked ← users_are_blocked multiple_rows db.blocks r.sender_id r.receiver_id
  raise_if blocked not_allowed
  let done = connect ids now r db
  ok (done.0, tell r.sender_id user done.1)

unfoldable pub decline_request : ℕ → ℕ → ℕ → Db → Result Error Db
decline_request now user i db = do
  r ← pending_of (sent_to user (find? (has_id i) db.requests)) (find? (has_id i) db.requests)
  ok (record db { requests = update_first (has_id r.id) (answer declined now) db.requests })
