-- ===== src/Messages/Defs.antt =====
-- The rows of backend/app/models/messaging.py, and the order of messages: `(created_at, id)`.
use lc_connect.Base.{
  ℕ, Bool, true, false, ◌&&◌, ◌||◌, Option, none, some, List, ◌==◌, ltb, Text, find?,
}
use lc_connect.Social.{Match, Block}
use lc_connect.People.{User, Campus}

pub record Message : Type 0 where
  pub id : ℕ
  pub conversation_id : Option ℕ
  pub sender_id : ℕ
  pub match_id : Option ℕ
  pub client_message_id : Option ℕ
  pub reply_to_id : Option ℕ
  pub body : Text
  pub created_at : ℕ
  pub read_at : Option ℕ
  pub edited_at : Option ℕ
  pub deleted_at : Option ℕ

-- The columns that are read here. `is_active`: the status is 'active'. `moderates`: the role is 'admin' or 'owner'.
pub record Member : Type 0 where
  pub conversation_id : ℕ
  pub user_id : ℕ
  pub is_active : Bool
  pub moderates : Bool
  pub last_read : Option ℕ
  pub last_delivered : Option ℕ

pub record MessageEdit : Type 0 where
  pub message_id : ℕ
  pub previous_body : Text
  pub edited_at : ℕ

pub data Kind : Type 0 where
  dm staff_dm group : Kind

pub record Conversation : Type 0 where
  pub id : ℕ
  pub kind : Kind
  pub match_id : Option ℕ

pub record Db : Type 0 where
  pub messages : List Message
  pub members : List Member
  pub edits : List MessageEdit
  pub conversations : List Conversation
  pub matches : List Match
  pub blocks : List Block
  pub users : List User
  pub campus : Campus

abbrev pub is_group : Kind → Bool
is_group group = true
is_group _ = false

abbrev pub is_message : ℕ → Message → Bool
is_message i m = m.id == i

-- `Message.conversation_id == v`, which a row without a conversation never passes.
abbrev pub is_id : ℕ → Option ℕ → Bool
is_id v none = false
is_id v (some w) = w == v

abbrev pub is_in : ℕ → Message → Bool
is_in v m = is_id v m.conversation_id

abbrev pub is_member : ℕ → ℕ → Member → Bool
is_member v user k = k.conversation_id == v && k.user_id == user

-- `(created_at, id)` of a message, and the order of two of them.
abbrev pub Cursor : Type 0
Cursor = ℕ × ℕ

abbrev pub cursor_of : Message → Cursor
cursor_of m = (m.created_at, m.id)

abbrev pub before : Cursor → Cursor → Bool
before a b = ltb a.0 b.0 || (a.0 == b.0 && ltb a.1 b.1)

-- The cursor of the first message that passes a test.
abbrev pub cursor_of_row : Option Message → Option Cursor
cursor_of_row none = none
cursor_of_row (some m) = some (cursor_of m)

abbrev pub lookup : (Message → Bool) → List Message → Option Cursor
lookup p ms = cursor_of_row (find? p ms)
