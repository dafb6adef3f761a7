-- ===== src/Messages/Receipts.antt =====
-- `mark_delivered` and `mark_read` of backend/app/features/realtime/service.py, for a conversation
-- that the caller has resolved.
use lc_connect.Base.{
  ℕ, Bool, not, ◌&&◌, Option, none, some, List, [], ◌∷◌, ◌==◌, leb, if◌then◌else◌, find?,
  update_first, is_some,
}
use lc_connect.Messages.Defs.{
  Message, Member, Conversation, Db, Cursor, before, is_message, is_member, is_in, is_group, lookup,
}

-- `_cursor_for`
abbrev pub names : ℕ → ℕ → Message → Bool
names v i m = m.id == i && is_in v m

unfoldable pub cursor_for : ℕ → ℕ → List Message → Option Cursor
cursor_for v i ms = lookup (names v i) ms

-- The cursor of a boundary: none where there is no boundary, or no row for it.
abbrev pub cursor_at : Option ℕ → List Message → Option Cursor
cursor_at none ms = none
cursor_at (some i) ms = lookup (is_message i) ms

-- `_advance_boundary`
abbrev pub further : Option Cursor → Option ℕ → Cursor → Option ℕ
further none current cursor = some cursor.1
further (some c) current cursor = if before c cursor then some cursor.1 else current

unfoldable pub advance_boundary : List Message → Option ℕ → Cursor → Option ℕ
advance_boundary ms current cursor = further (cursor_at current ms) current cursor

-- The update of `messages.read_at`, for what is no group.
abbrev pub stamped : ℕ → ℕ → ℕ → ℕ → Message → Message
stamped v reader through now m =
    if is_in v m
      && not (m.sender_id == reader)
      && leb m.created_at through
      && not (is_some m.read_at)
    then record m { read_at = some now }
    else m

unfoldable pub stamp_read : ℕ → ℕ → ℕ → ℕ → List Message → List Message
stamp_read v reader through now [] = []
stamp_read v reader through now (m ∷ ms) =
    stamped v reader through now m ∷ stamp_read v reader through now ms

abbrev pub delivered_to : List Message → Cursor → Member → Member
delivered_to ms c k = record k { last_delivered = advance_boundary ms k.last_delivered c }

abbrev pub read_to : List Message → Cursor → Member → Member
read_to ms c k = record k {
  last_read = advance_boundary ms k.last_read c;
  last_delivered = advance_boundary ms k.last_delivered c;
}

-- Both answer with a time where they applied.
abbrev pub delivered_by : ℕ → ℕ → ℕ → Option Cursor → Option Member → Db → Option ℕ × Db
delivered_by v user now (some c) (some k) db = (
  some now,
  record db { members = update_first (is_member v user) (delivered_to db.messages c) db.members },
)
delivered_by v user now _ _ db = (none, db)

unfoldable pub mark_delivered : Conversation → ℕ → ℕ → ℕ → Db → Option ℕ × Db
mark_delivered v user through now db =
    delivered_by v.id user now (cursor_for v.id through db.messages)
      (find? (is_member v.id user) db.members) db

abbrev pub read_by : Conversation → ℕ → ℕ → Option Cursor → Option Member → Db → Option ℕ × Db
read_by v user now (some c) (some k) db = (
  some now,
  record db {
    members = update_first (is_member v.id user) (read_to db.messages c) db.members;
    messages = (if is_group v.kind then db.messages else stamp_read v.id user c.0 now db.messages);
  },
)
read_by v user now _ _ db = (none, db)

unfoldable pub mark_read : Conversation → ℕ → ℕ → ℕ → Db → Option ℕ × Db
mark_read v user through now db =
    read_by v user now (cursor_for v.id through db.messages)
      (find? (is_member v.id user) db.members) db

-- What a person's devices acknowledge in a conversation, with the times.
pub data Receipt : Type 0 where
  delivered read : ℕ → ℕ → Receipt

unfoldable pub receive : Conversation → ℕ → Receipt → Db → Db
receive v user (delivered through now) db = (mark_delivered v user through now db).1
receive v user (read through now) db = (mark_read v user through now db).1

unfoldable pub receive_all : Conversation → ℕ → List Receipt → Db → Db
receive_all v user [] db = db
receive_all v user (r ∷ rs) db = receive_all v user rs (receive v user r db)
