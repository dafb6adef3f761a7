-- ===== src/Messages/Tests.antt =====
-- A group chat, 5, of 7 and its moderator 8, and a direct chat, 6, of the same people.
use lc_connect.Base.{
  ◌≡◌, inl, ℕ, refl, Bool, true, false, none, some, List, [], ◌∷◌, arith, count_if, find?, Option,
  update_first, ok, strip, text_eq, any_row,
}
use lc_connect.People.{staff}
use lc_connect.Messages.Defs.{Message, Member, Conversation, Db, dm, group, is_message}
use lc_connect.Messages.Access.{
  Settings, accessible_conversation, resolve_conversation, is_active_member, is_moderator,
  staff_thread_is_open, assert_can_post, dm_is_disconnected,
}
use lc_connect.Messages.Sending.{
  Call, send, edit, remove, run, serve, send_message, edit_message, delete_message, clashes,
  persist_message_idempotent, new_message, write_edit, write_tombstone,
}
use lc_connect.Messages.Receipts.{Receipt, read, delivered, receive_all, cursor_for}
use lc_connect.Messages.Cursors.{Keyed}
use lc_connect.Messages.Boundaries.{Bounds}
use lc_connect.Messages.Newest.{Newest, Ordered, acknowledged, as_read, as_delivered}
use lc_connect.Messages.Acknowledged.{boundaries, receive_all-Newest, receive_all-Ordered}
use lc_connect.Messages.StaffThreads.{OnePrimary, is_staff_party, staff_thread_is_open-can_message}
use lc_connect.Messages.Lives.{AllFresh, run-tombstone, run-words}
use lc_connect.Messages.History.{Recorded, run-Recorded}
use lc_connect.Messages.Retry.{persist-again}

abbrev row : ℕ → ℕ → ℕ → ℕ → ℕ → Option ℕ → Message
row i conversation sender client at gone = record {
  id = i;
  conversation_id = some conversation;
  sender_id = sender;
  match_id = none;
  client_message_id = some client;
  reply_to_id = none;
  body = 104 ∷ [];
  created_at = at;
  read_at = none;
  edited_at = none;
  deleted_at = gone;
}

abbrev chat : Conversation
chat = record { id = 5; kind = group; match_id = none }

abbrev direct : Conversation
direct = record { id = 6; kind = dm; match_id = some 60 }

abbrev joined : ℕ → ℕ → Bool → Member
joined conversation user moderates = record {
  conversation_id = conversation;
  user_id = user;
  is_active = true;
  moderates = moderates;
  last_read = none;
  last_delivered = some 11;
}

abbrev table : List Message
table =
    row 1 5 7 90 100 none
    ∷ row 2 5 8 91 110 (some 120)
    ∷ row 11 6 8 92 130 none
    ∷ row 12 6 8 93 140 none
    ∷ row 13 6 8 94 140 none
    ∷ []

abbrev start : Db
start = record {
  messages = table;
  members = joined 5 7 false ∷ joined 5 8 true ∷ joined 6 7 false ∷ joined 6 8 false ∷ [];
  edits = [];
  conversations = chat ∷ direct ∷ [];
  matches = [];
  blocks = [];
  users = [];
  campus = record { positions = []; programs = []; memberships = [] };
}

table-Keyed : Keyed table
unfolding count_if
table-Keyed i = ground arith

-- The newest is acknowledged first.
abbrev receipts : List Receipt
receipts = read 13 200 ∷ delivered 11 201 ∷ read 12 202 ∷ []

receive_all-Newest_example :
    (b : Bounds) × (boundaries direct 7 (receive_all direct 7 receipts start) ≡ some b)
    × Newest none (acknowledged (as_read λ i. cursor_for 6 i table) receipts) b.read
    × Newest
        (some (130, 11))
        (acknowledged (as_delivered λ i. cursor_for 6 i table) receipts)
        b.delivered
unfolding find?
receive_all-Newest_example =
    receive_all-Newest direct 7 receipts start (joined 6 7 false) table-Keyed refl

receive_all-Ordered_example :
    (b : Bounds) × (boundaries direct 7 (receive_all direct 7 receipts start) ≡ some b) × Ordered b
unfolding find?
receive_all-Ordered_example =
    receive_all-Ordered direct 7 receipts start (joined 6 7 false) table-Keyed refl tt

abbrev settings : Settings
settings = record { staff_messaging_enabled = true; message_edit_window_seconds = 900 }

abbrev calls : List Call
calls =
    record {
      actor = 7;
      fresh = 3;
      now = 200;
      request =
          send 5 (record { body = 105 ∷ []; client_message_id = some 95; reply_to_id = none });
    }
    ∷ record { actor = 7; fresh = 4; now = 300; request = edit 1 (106 ∷ []) }
    ∷ record { actor = 8; fresh = 4; now = 400; request = remove 1 }
    ∷ record { actor = 8; fresh = 4; now = 500; request = remove 2 }
    ∷ []

abbrev moderation : List Call
moderation = record { actor = 8; fresh = 4; now = 400; request = remove 1 } ∷ []

calls-AllFresh : AllFresh settings calls start
unfolding find? serve send_message accessible_conversation resolve_conversation is_active_member
    assert_can_post dm_is_disconnected persist_message_idempotent clashes edit_message strip
    write_edit text_eq update_first delete_message is_moderator write_tombstone
calls-AllFresh = (refl, (refl, (refl, (refl, tt))))

run-tombstone_example :
    find? (is_message 2) (run settings calls start).messages ≡ some (row 2 5 8 91 110 (some 120))
unfolding find?
run-tombstone_example =
    run-tombstone settings calls start 2 (row 2 5 8 91 110 (some 120)) calls-AllFresh refl refl

run-words_example :
    (m : Message) × (find? (is_message 1) (run settings moderation start).messages ≡ some m)
    × (m.body ≡ 104 ∷ [])
    × (m.sender_id ≡ 7)
    × (m.conversation_id ≡ some 5)
    × (m.created_at ≡ 100)
unfolding find?
run-words_example =
    run-words settings moderation start 1 (row 1 5 7 90 100 none) (refl, tt) refl (omega arith, tt)

run-Recorded_example :
    Recorded 1 (104 ∷ []) (run settings calls start).messages (run settings calls start).edits
unfolding find?
run-Recorded_example =
    run-Recorded settings calls start 1 (104 ∷ []) calls-AllFresh
      (row 1 5 7 90 100 none, refl, inl refl)

abbrev sent_first : Db
sent_first = record start { messages = new_message 3 200 7 chat (105 ∷ []) (some 95) none ∷ table }

persist-again_example :
    persist_message_idempotent 4 300 7 chat (106 ∷ []) (some 95) none sent_first
    ≡ ok ((new_message 3 200 7 chat (105 ∷ []) (some 95) none, false), sent_first)
unfolding persist_message_idempotent clashes
persist-again_example =
    persist-again 3 200 4 300 7 95 chat (105 ∷ []) (106 ∷ []) none none start
      ((new_message 3 200 7 chat (105 ∷ []) (some 95) none, true), sent_first) refl

-- A thread of the student 7 with the staff member 8, who has a verified position.
abbrev staffed : Db
staffed = record start {
  members = joined 9 7 false ∷ joined 9 8 false ∷ [];
  users =
      record {
        id = 8;
        role = staff;
        is_active = true;
        is_open = true;
        is_verified = true;
        is_deleted = false;
      }
      ∷ [];
  campus = record {
    positions =
        record { user_id = 8; is_primary = true; is_active = true; is_official = true } ∷ [];
    programs = [];
    memberships = [];
  };
}

staffed-OnePrimary : OnePrimary staffed.campus.positions
unfolding count_if
staffed-OnePrimary user = ground arith

staff_thread_is_open-can_message_example :
    staff_thread_is_open settings 9 staffed
    ≡ any_row (is_staff_party settings 9 staffed) staffed.members
staff_thread_is_open-can_message_example =
    staff_thread_is_open-can_message settings 9 staffed staffed-OnePrimary
