-- ===== src/Messages/Access.antt =====
-- Who may use a conversation: backend/app/shared/conversations.py, with the staff messengers of
-- backend/app/shared/policies.py.
use lc_connect.Base.{
  ℕ, Bool, true, false, not, ◌&&◌, ◌||◌, Option, none, some, List, [], ◌∷◌, ◌==◌, if◌then◌else◌,
  find?, any_row, filter_rows, is_some, Result, ok, ◌>>=◌, ◌>>◌, raise_if, or_raise,
}
use lc_connect.Social.{Match, users_are_blocked}
use lc_connect.People.{UserRole, student, User, Position, Campus, get_primary_position}
use lc_connect.Messages.Defs.{Member, Kind, dm, staff_dm, group, Conversation, Db, is_member, is_id}

-- One for each `raise`, and the exception of `scalar_one_or_none`.
pub data Error : Type 0 where
  message_not_found conversation_not_found messaging_blocked staff_thread_closed : Error
  no_longer_connected only_own_messages message_was_deleted edit_window_expired : Error
  body_length reply_target_missing reply_target_deleted client_id_used : Error
  integrity_error multiple_results : Error

unfoldable pub status_code : Error → ℕ
status_code message_not_found = 404
status_code conversation_not_found = 404
status_code messaging_blocked = 403
status_code staff_thread_closed = 403
status_code no_longer_connected = 403
status_code only_own_messages = 403
status_code message_was_deleted = 409
status_code edit_window_expired = 409
status_code body_length = 422
status_code reply_target_missing = 422
status_code reply_target_deleted = 409
status_code client_id_used = 409
status_code _ = 500

-- The settings that are read. The window counts seconds.
pub record Settings : Type 0 where
  pub staff_messaging_enabled : Bool
  pub message_edit_window_seconds : ℕ

-- `_BLOCKABLE_KINDS`
abbrev pub is_blockable : Kind → Bool
is_blockable group = false
is_blockable _ = true

abbrev pub is_staff_dm : Kind → Bool
is_staff_dm staff_dm = true
is_staff_dm _ = false

abbrev pub is_dm : Kind → Bool
is_dm dm = true
is_dm _ = false

-- `_STAFF_MESSAGING_ROLES`
abbrev pub is_messaging_role : UserRole → Bool
is_messaging_role student = false
is_messaging_role _ = true

abbrev pub is_official_row : Option Position → Bool
is_official_row none = false
is_official_row (some p) = p.is_official

unfoldable pub can_message_as_staff : Settings → Campus → User → Bool
can_message_as_staff s campus u =
    s.staff_messaging_enabled
    && is_messaging_role u.role
    && is_official_row (get_primary_position campus u.id)

abbrev pub is_official_primary : ℕ → Position → Bool
is_official_primary user p = p.user_id == user && p.is_primary && p.is_active && p.is_official

-- A member of the join in `open_staff_thread_ids`: with a position and an account.
abbrev pub is_staff_side : ℕ → Db → Member → Bool
is_staff_side v db k =
    k.conversation_id == v
    && k.is_active
    && any_row (is_official_primary k.user_id) db.campus.positions
    && any_row (λ u. u.id == k.user_id && is_messaging_role u.role) db.users

unfoldable pub staff_thread_is_open : Settings → ℕ → Db → Bool
staff_thread_is_open s v db = s.staff_messaging_enabled && any_row (is_staff_side v db) db.members

abbrev pub is_active_row : ℕ → ℕ → Member → Bool
is_active_row v user k = is_member v user k && k.is_active

-- The unique constraint on (conversation, user) leaves one row at most.
unfoldable pub is_active_member : Db → ℕ → ℕ → Bool
is_active_member db v user = is_some (find? (is_active_row v user) db.members)

abbrev pub moderates_row : Option Member → Bool
moderates_row none = false
moderates_row (some k) = k.moderates

-- `member_role(...) in ('admin', 'owner')`
unfoldable pub is_moderator : Db → ℕ → ℕ → Bool
is_moderator db v user = moderates_row (find? (is_active_row v user) db.members)

unfoldable pub active_members : ℕ → ℕ → Db → List Member
active_members v excluded db =
    filter_rows (λ k. k.conversation_id == v && k.is_active && not (k.user_id == excluded))
      db.members

-- The rows of `ensure_dm_conversation`, for a match without a conversation.
abbrev pub party : ℕ → ℕ → Member
party v user = record {
  conversation_id = v;
  user_id = user;
  is_active = true;
  moderates = false;
  last_read = none;
  last_delivered = none;
}

unfoldable pub provision : ℕ → Option Match → Db → Option Conversation × Db
provision fresh none db = (none, db)
provision fresh (some m) db =
    let v : Conversation = record { id = fresh; kind = dm; match_id = some m.id } in
    (
      some v,
      record db {
        conversations = v ∷ db.conversations;
        members = party fresh m.user_a_id ∷ party fresh m.user_b_id ∷ db.members;
      },
    )

abbrev pub resolved : ℕ → Option Conversation → Option Match → Db → Option Conversation × Db
resolved fresh (some v) m db = (some v, db)
resolved fresh none m db = provision fresh m db

-- `ref` is a conversation's id or a match's; `fresh` is the id of a row that is made.
unfoldable pub resolve_conversation : ℕ → ℕ → Db → Option Conversation × Db
resolve_conversation fresh ref db =
    resolved fresh (find? (λ v. v.id == ref || is_id ref v.match_id) db.conversations)
      (find? (λ m. m.id == ref) db.matches) db

-- The loop over the other members.
unfoldable pub check_blocks : Db → ℕ → List Member → Result Error Unit
check_blocks db user [] = ok tt
check_blocks db user (k ∷ ks) = do
  blocked ← users_are_blocked multiple_results db.blocks user k.user_id
  raise_if blocked messaging_blocked
  check_blocks db user ks

unfoldable pub accessible_conversation :
    Settings → ℕ → ℕ → ℕ → Db → Result Error (Conversation × Db)
accessible_conversation s fresh ref user db = do
  let found = resolve_conversation fresh ref db
  v ← or_raise found.0 conversation_not_found
  raise_if (not (is_active_member found.1 v.id user)) conversation_not_found
  if is_blockable v.kind
      then check_blocks found.1 user (active_members v.id user found.1)
      else ok tt
  raise_if (is_staff_dm v.kind && not (staff_thread_is_open s v.id found.1)) staff_thread_closed
  ok (v, found.1)

abbrev pub has_ended : Option Match → Bool
has_ended none = false
has_ended (some m) = is_some m.disconnected_at

abbrev pub ended_match : Option ℕ → Db → Bool
ended_match none db = false
ended_match (some i) db = has_ended (find? (λ m. m.id == i) db.matches)

unfoldable pub dm_is_disconnected : Db → Conversation → Bool
dm_is_disconnected db v = is_dm v.kind && ended_match v.match_id db

unfoldable pub assert_can_post : Db → Conversation → Result Error Unit
assert_can_post db v = raise_if (dm_is_disconnected db v) no_longer_connected
