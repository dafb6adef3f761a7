-- ===== src/Connections/Accepting.antt =====
-- What accepting a request establishes.
use lc_connect.Base.{
  ℕ, ◌≡◌, refl, true, false, some, List, arith, is_some, ok, find?, find?-passes,
  find?-update_first_self, Option-cases, Result-cases, Bool-cases, inl, inr,
}
use lc_connect.Social.{Match, ConnectionRequest, is_pending, users_are_blocked}
use lc_connect.Connections.Requests.{
  Db, Draws, ordered_pair, is_pair, existing_match, active_match, reconnect, new_match, match_for,
  connect, Conversation, ensure_dm_conversation, is_of, has_id, accept_request, multiple_rows, tell,
}

new_is_pair : (id left right now : ℕ) → is_pair left right (new_match id left right now) ≡ true
new_is_pair id left right now = ground arith

reconnect-is_pair :
    (left right : ℕ) (m : Match)
    → is_pair left right m ≡ true
    → is_pair left right (reconnect m) ≡ true
reconnect-is_pair left right m h = h

-- The row that is made or used again is the pair's live match.
match_for-live :
    (id now a b : ℕ) (ms : List Match)
    → active_match a b (match_for id now a b ms).1 ≡ some (match_for id now a b ms).0
unfolding active_match match_for existing_match find?
match_for-live id now a b ms =
    elim (Option-cases (find? (is_pair (ordered_pair a b).0 (ordered_pair a b).1) ms)) [
      | inl e ↦ rw (e, new_is_pair id (ordered_pair a b).0 (ordered_pair a b).1 now) refl
      | inr (m, e) ↦
          rw
            (
              e,
              find?-update_first_self (is_pair (ordered_pair a b).0 (ordered_pair a b).1) reconnect
                  ms (find?-passes (is_pair (ordered_pair a b).0 (ordered_pair a b).1) ms e) e,
            )
            refl
    ]

has_conversation :
    (id : ℕ) (m : Match) (cs : List Conversation)
    → is_some (find? (is_of m.id) (ensure_dm_conversation id m cs)) ≡ true
unfolding ensure_dm_conversation find?
has_conversation id m cs = elim (Bool-cases (is_some (find? (is_of m.id) cs))) [
  | inl e ↦ rw (e, e) refl
  | inr e ↦ ground (arith, e)
]

-- A request that is accepted was pending and sent to the caller, and the two people have not blocked
-- each other; afterwards they have a live match, which is what the route returns, and that match
-- has a conversation.
pub accept_request-connected :
    (ids : Draws) (now user i : ℕ) (db : Db) {r : ConnectionRequest} {m : Match} {db' : Db}
    → find? (has_id i) db.requests ≡ some r
    → accept_request ids now user i db ≡ ok (m, db')
    → ((r.receiver_id ≡ user)
        × (is_pending r.status ≡ true)
        × (users_are_blocked multiple_rows db.blocks r.sender_id r.receiver_id ≡ ok false))
      × (active_match r.sender_id r.receiver_id db'.matches ≡ some m)
      × (is_some (find? (is_of m.id) db'.conversations) ≡ true)
unfolding accept_request connect tell
accept_request-connected ids now user i db {r} {m} {db'} found done =
    elim (Result-cases (users_are_blocked multiple_rows db.blocks r.sender_id r.receiver_id)) [
      | inr (x, e) ↦ ground (arith, found, e)
      | inl (b, e) ↦ ground (
        arith,
        found,
        e,
        match_for-live ids.match_id now r.sender_id r.receiver_id db.matches,
        has_conversation ids.conversation_id
            (match_for ids.match_id now r.sender_id r.receiver_id db.matches).0 db.conversations,
      )
    ]
