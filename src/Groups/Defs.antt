-- ===== src/Groups/Defs.antt =====
-- The rows of a group (backend/app/models/groups.py, ConversationMember of models/messaging.py), the
-- request bodies of groups/schema.py and the errors that groups/service.py and router.py raise.
use lc_connect.Base.{
  Change, ℕ, Bool, true, false, Option, List, ◌∷◌, ◌==◌, Text, count_if, find?, update_first,
}
use lc_connect.Social.{Match}

-- `role` and `status` are text columns: `other` is any text that the code does not name.
pub data Role : Type 0 where
  member admin owner other : Role

pub data Status : Type 0 where
  active requested invited removed banned : Status

pub data Visibility : Type 0 where
  public unlisted hidden : Visibility

pub data JoinPolicy : Type 0 where
  open_to_all approval invite_only : JoinPolicy

-- A row of `conversation_members` of the group's conversation.
pub record Member : Type 0 where
  pub user_id : ℕ
  pub role : Role
  pub status : Status
  pub invited_by : Option ℕ
  pub muted : Bool

pub record Group : Type 0 where
  pub name : Text
  pub description : Option Text
  pub avatar_url : Option Text
  pub category : Text
  pub visibility : Visibility
  pub join_policy : JoinPolicy
  pub owner_id : ℕ
  pub max_members : Option ℕ

-- What the handlers send to the realtime runtime after their commit.
pub data Event : Type 0 where
  join_request approved rejected invitation made_admin removed_admin dropped : ℕ → ℕ → Event
  revoke_member : ℕ → Event
  conversation_muted : ℕ → Bool → Event

-- What the database holds of one group: its row (none once it is deleted), the member rows of its
-- conversation, and the campus-wide table of matches. `events` is the log of what was sent.
pub record Db : Type 0 where
  pub group : Option Group
  pub members : List Member
  pub matches : List Match
  pub events : List Event

-- One for each `raise`, and the two exceptions that become a 500.
pub data Error : Type 0 where
  group_not_found not_allowed members_only not_a_member : Error
  too_many_members cannot_join already_member invite_only_group group_full : Error
  no_pending_request no_pending_invite only_connections user_banned : Error
  transfer_first bad_role member_not_found cannot_change already_owner cannot_moderate : Error
  attribute_error not_null_violation multiple_results no_result : Error

-- `HTTPException.status_code`.
unfoldable pub status_code : Error → ℕ
status_code group_not_found = 404
status_code not_allowed = 403
status_code members_only = 403
status_code not_a_member = 404
status_code too_many_members = 400
status_code cannot_join = 403
status_code already_member = 409
status_code invite_only_group = 403
status_code group_full = 409
status_code no_pending_request = 404
status_code no_pending_invite = 404
status_code only_connections = 403
status_code user_banned = 403
status_code transfer_first = 409
status_code bad_role = 400
status_code member_not_found = 404
status_code cannot_change = 403
status_code already_owner = 400
status_code cannot_moderate = 403
status_code _ = 500

pub record GroupUpdate : Type 0 where
  pub name : Change Text
  pub description : Change Text
  pub category : Change Text
  pub visibility : Change Visibility
  pub join_policy : Change JoinPolicy
  pub max_members : Change ℕ

pub record GroupCreate : Type 0 where
  pub name : Text
  pub category : Text
  pub visibility : Visibility
  pub join_policy : JoinPolicy
  pub description : Option Text
  pub max_members : Option ℕ

pub data JoinStatus : Type 0 where
  joined waiting : JoinStatus

abbrev pub is_active : Status → Bool
is_active active = true
is_active _ = false

abbrev pub is_user : ℕ → Member → Bool
is_user u m = m.user_id == u

abbrev pub is_active_row : Member → Bool
is_active_row m = is_active m.status

-- `membership`: the unique constraint on (conversation, user) leaves one row at most.
unfoldable pub membership : Db → ℕ → Option Member
membership db u = find? (is_user u) db.members

unfoldable pub active_member_count : Db → ℕ
active_member_count db = count_if is_active_row db.members

-- Assigning to the row of one user.
unfoldable pub edit_member : ℕ → (Member → Member) → Db → Db
edit_member u f db = record db { members = update_first (is_user u) f db.members }

unfoldable pub add_member : Member → Db → Db
add_member m db = record db { members = m ∷ db.members }

abbrev pub set_status : Status → Member → Member
set_status s m = record m { status = s }

abbrev pub set_role : Role → Member → Member
set_role r m = record m { role = r }

abbrev pub emit : Event → Db → Db
emit e db = record db { events = e ∷ db.events }
