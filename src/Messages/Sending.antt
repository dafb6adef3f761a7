-- ===== src/Messages/Sending.antt =====
-- Writing messages: `persist_message_idempotent`, `delete_message` and `message_read` of
-- backend/app/features/messages/service.py, editing.py, `validate_reply_target` of replies.py, and
-- the handlers `send_message`, `edit_message_endpoint` and `delete_message_endpoint` of router.py
-- up to what they send to the sockets.
use lc_connect.Base.{
  ℕ, ◌*◌, ◌+◌, Bool, true, false, not, ◌&&◌, ◌||◌, Option, none, some, List, [], ◌∷◌, ◌==◌, ltb,
  if◌then◌else◌, find?, any_row, is_some, update_first, Result, ok, err, ◌>>=◌, ◌>>◌, raise_if,
  or_raise, Text, strip, text_eq, length,
}
use lc_connect.Messages.Defs.{Message, Conversation, Db, is_message, is_in}
use lc_connect.Messages.Access.{
  Settings, Error, message_not_found, only_own_messages, message_was_deleted, edit_window_expired,
  body_length, reply_target_missing, reply_target_deleted, client_id_used, integrity_error,
  is_active_member, is_moderator, accessible_conversation, assert_can_post,
}

abbrev pub max_body_chars : ℕ
max_body_chars = 2000

-- The rows of the partial unique index for a client's id.
abbrev pub has_client : ℕ → Option ℕ → Bool
has_client c none = false
has_client c (some d) = d == c

abbrev pub is_client : ℕ → ℕ → Message → Bool
is_client sender c m = m.sender_id == sender && has_client c m.client_message_id

abbrev pub taken : Option ℕ → ℕ → List Message → Bool
taken none sender ms = false
taken (some c) sender ms = any_row (is_client sender c) ms

-- The insert meets the index.
unfoldable pub clashes : Message → List Message → Bool
clashes row ms = taken row.client_message_id row.sender_id ms

-- What is read after the insert was refused.
abbrev pub original : ℕ → Option Message → Db → Result Error ((Message × Bool) × Db)
original conversation none db = err integrity_error
original conversation (some existing) db =
    if is_in conversation existing then ok ((existing, false), db) else err client_id_used

abbrev pub refused : ℕ → Message → Option ℕ → Db → Result Error ((Message × Bool) × Db)
refused conversation row none db = err integrity_error
refused conversation row (some c) db =
    original conversation (find? (is_client row.sender_id c) db.messages) db

abbrev pub arbiter : ℕ → Message → Bool → Db → Result Error ((Message × Bool) × Db)
arbiter conversation row false db = ok ((row, true), record db { messages = row ∷ db.messages })
arbiter conversation row true db = refused conversation row row.client_message_id db

-- `fresh` and `now` are the id and the time that the database gives.
abbrev pub new_message : ℕ → ℕ → ℕ → Conversation → Text → Option ℕ → Option ℕ → Message
new_message fresh now sender v body client reply = record {
  id = fresh;
  conversation_id = some v.id;
  sender_id = sender;
  match_id = v.match_id;
  client_message_id = client;
  reply_to_id = reply;
  body = body;
  created_at = now;
  read_at = none;
  edited_at = none;
  deleted_at = none;
}

unfoldable pub persist_message_idempotent :
    ℕ
    → ℕ
    → ℕ
    → Conversation
    → Text
    → Option ℕ
    → Option ℕ
    → Db
    → Result Error ((Message × Bool) × Db)
persist_message_idempotent fresh now sender v body client reply db =
    let row = new_message fresh now sender v body client reply in
    arbiter v.id row (clashes row db.messages) db

unfoldable pub validate_reply_target : Db → ℕ → ℕ → Result Error Message
validate_reply_target db conversation reply = do
  target ← or_raise (find? (is_message reply) db.messages) reply_target_missing
  raise_if (not (is_in conversation target)) reply_target_missing
  raise_if (is_some target.deleted_at) reply_target_deleted
  ok target

abbrev pub check_reply : Db → ℕ → Option ℕ → Result Error Unit
check_reply db conversation none = ok tt
check_reply db conversation (some reply) = do
  target ← validate_reply_target db conversation reply
  ok tt

-- What a client sends; its body has passed the schema.
pub record MessageCreate : Type 0 where
  pub body : Text
  pub client_message_id : Option ℕ
  pub reply_to_id : Option ℕ

-- `fresh` is the id of the row that is made, and of the conversation's if there is none: ids of
-- different tables are not compared.
unfoldable pub send_message :
    Settings → ℕ → ℕ → ℕ → ℕ → MessageCreate → Db → Result Error ((Message × Bool) × Db)
send_message s fresh now actor ref payload db = do
  opened ← accessible_conversation s fresh ref actor db
  assert_can_post opened.1 opened.0
  check_reply opened.1 opened.0.id payload.reply_to_id
  persist_message_idempotent fresh now actor opened.0 (strip payload.body) payload.client_message_id
      payload.reply_to_id opened.1

abbrev pub tombstone : ℕ → Message → Message
tombstone now m = record m { deleted_at = some now }

unfoldable pub write_tombstone : ℕ → Message → Db → Message × Db
write_tombstone now m db = if is_some m.deleted_at then (m, db) else (
  tombstone now m,
  record db { messages = update_first (is_message m.id) (tombstone now) db.messages },
)

unfoldable pub delete_message : ℕ → ℕ → ℕ → Db → Result Error (Message × Db)
delete_message now actor id db = do
  m ← or_raise (find? (is_message id) db.messages) message_not_found
  v ← or_raise m.conversation_id message_not_found
  raise_if (not (is_active_member db v actor)) message_not_found
  raise_if (not (m.sender_id == actor) && not (is_moderator db v actor)) only_own_messages
  ok (write_tombstone now m db)

abbrev pub edited : ℕ → Text → Message → Message
edited now body m = record m { body = body; edited_at = some now }

unfoldable pub write_edit : ℕ → Text → Message → Db → Message × Db
write_edit now body m db = if text_eq body m.body then (m, db) else (
  edited now body m,
  record db {
    messages = update_first (is_message m.id) (edited now body) db.messages;
    edits = record { message_id = m.id; previous_body = m.body; edited_at = now } ∷ db.edits;
  },
)

-- Times count microseconds, and the window seconds.
abbrev pub is_expired : Settings → ℕ → Message → Bool
is_expired s now m = ltb (m.created_at + s.message_edit_window_seconds * 1000000) now

unfoldable pub edit_message : Settings → ℕ → ℕ → ℕ → ℕ → Text → Db → Result Error (Message × Db)
edit_message s fresh now actor id body db = do
  m ← or_raise (find? (is_message id) db.messages) message_not_found
  v ← or_raise m.conversation_id message_not_found
  opened ← accessible_conversation s fresh v actor db
  assert_can_post opened.1 opened.0
  raise_if (not (m.sender_id == actor)) message_not_found
  raise_if (is_some m.deleted_at) message_was_deleted
  raise_if (is_expired s now m) edit_window_expired
  raise_if (length (strip body) == 0 || ltb max_body_chars (length (strip body))) body_length
  ok (write_edit now (strip body) m opened.1)

-- `message_read`: what a client is shown of a message's text.
abbrev pub body_read : Message → Text
body_read m = if is_some m.deleted_at then [] else m.body

-- What people ask for, with the id and the time that a write takes. An error leaves the database.
pub data Request : Type 0 where
  send : ℕ → MessageCreate → Request
  edit : ℕ → Text → Request
  remove : ℕ → Request

pub record Call : Type 0 where
  pub actor : ℕ
  pub fresh : ℕ
  pub now : ℕ
  pub request : Request

abbrev pub committed : {A : Type 0} → Result Error (A × Db) → Db → Db
committed (ok r) db = r.1
committed (err e) db = db

unfoldable pub serve : Settings → Call → Request → Db → Db
serve s c (send ref payload) db = committed (send_message s c.fresh c.now c.actor ref payload db) db
serve s c (edit id body) db = committed (edit_message s c.fresh c.now c.actor id body db) db
serve s c (remove id) db = committed (delete_message c.now c.actor id db) db

unfoldable pub run : Settings → List Call → Db → Db
run s [] db = db
run s (c ∷ cs) db = run s cs (serve s c c.request db)
