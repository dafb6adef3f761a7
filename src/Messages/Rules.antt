-- ===== src/Messages/Rules.antt =====
-- What each operation on messages has tested when it succeeds: backend/app/features/messages, and
-- backend/app/shared/conversations.py.
use lc_connect.Base.{
  ℕ, ◌≡◌, refl, Bool, true, false, not, ◌&&◌, ◌||◌, Option, none, some, ◌∷◌, ◌==◌, ltb, find?,
  is_some, Result-cases, ok, OnOk, inl, inr, Bool-cases, Option-cases, Text, strip, length,
  if◌then◌else◌,
}
use lc_connect.Social.{Match}
use lc_connect.Messages.Defs.{Message, Conversation, Db, is_message, is_in}
use lc_connect.Messages.Access.{
  Settings, is_active_member, is_moderator, accessible_conversation, assert_can_post,
  resolve_conversation, resolved, provision, is_blockable, is_staff_dm, staff_thread_is_open,
  check_blocks, active_members, dm_is_disconnected,
}
use lc_connect.Messages.Sending.{
  max_body_chars, send_message, MessageCreate, check_reply, clashes, refused, is_client,
  persist_message_idempotent, arbiter, delete_message, write_tombstone, edit_message, is_expired,
  write_edit,
}

-- A conversation is found, or made for a match: the messages stay.
abbrev pub Same : Db → Db → Type 0
Same a b = (a.messages ≡ b.messages) × (a.edits ≡ b.edits)

resolved-Same :
    (fresh : ℕ) (v : Option Conversation) (m : Option Match) (db : Db)
    → Same (resolved fresh v m db).1 db
unfolding provision
resolved-Same fresh (some v) m db = (refl, refl)
resolved-Same fresh none none db = (refl, refl)
resolved-Same fresh none (some m) db = (refl, refl)

resolve_conversation-Same :
    (fresh ref : ℕ) (db : Db) → Same (resolve_conversation fresh ref db).1 db
unfolding resolve_conversation
resolve_conversation-Same fresh ref db = resolved-Same fresh _ _ db

-- Who passed: an active member of the conversation.
pub accessible_rule :
    (s : Settings) (fresh ref user : ℕ) (db : Db)
    → OnOk
        (λ r. Same r.1 db × (is_active_member r.1 r.0.id user ≡ true))
        (accessible_conversation s fresh ref user db)
unfolding accessible_conversation
accessible_rule s fresh ref user db =
    let found = resolve_conversation fresh ref db in
    elim (Option-cases found.0) [
      | inl e ↦ rw e tt
      | inr (v, e) ↦ elim (Bool-cases (is_active_member found.1 v.id user)) [
        | inr out ↦ simp (e, out) tt
        | inl here ↦
            elim (Result-cases (
              if is_blockable v.kind
              then check_blocks found.1 user (active_members v.id user found.1)
              else ok tt)) [
                | inr (x, blocked) ↦ simp (e, here, blocked) tt
                | inl (u, free) ↦
                    elim (Bool-cases
                      (is_staff_dm v.kind && not (staff_thread_is_open s v.id found.1))) [
                        | inl closed ↦ simp (e, here, free, closed) tt
                        | inr opens ↦
                            simp (e, here, free, opens)
                              (resolve_conversation-Same fresh ref db, refl)
                      ]
              ]
      ]
    ]

-- A message that someone may edit.
pub record MayEdit (s : Settings) (now actor id : ℕ) (body : Text) (m : Message) (db opened : Db)
    : Type 0 where
  pub found : find? (is_message id) db.messages ≡ some m
  pub same : Same opened db
  pub own : (m.sender_id == actor) ≡ true
  pub live : is_some m.deleted_at ≡ false
  pub in_time : is_expired s now m ≡ false
  pub fits : (length (strip body) == 0 || ltb max_body_chars (length (strip body))) ≡ false
  pub member :
      (v : Conversation) × (is_active_member opened v.id actor ≡ true)
      × (dm_is_disconnected opened v ≡ false)

pub edit_rule :
    (Q : Message × Db → Type 0) (s : Settings) (fresh now actor id : ℕ) (body : Text) (db : Db)
    → ((m : Message) (opened : Db)
        → MayEdit s now actor id body m db opened
        → Q (write_edit now (strip body) m opened))
    → OnOk Q (edit_message s fresh now actor id body db)
unfolding edit_message assert_can_post
edit_rule Q s fresh now actor id body db h =
    elim (Option-cases (find? (is_message id) db.messages)) [
      | inl e ↦ rw e tt
      | inr (m, found) ↦ elim (Option-cases m.conversation_id) [
        | inl e ↦ simp (found, e) tt
        | inr (v, at) ↦ elim (Result-cases (accessible_conversation s fresh v actor db)) [
          | inr (x, e) ↦ simp (found, at, e) tt
          | inl (o, opens) ↦ elim (Bool-cases (dm_is_disconnected o.1 o.0)) [
            | inl e ↦ simp (found, at, opens, e) tt
            | inr posts ↦ elim (Bool-cases (m.sender_id == actor)) [
              | inr e ↦ simp (found, at, opens, posts, e) tt
              | inl own ↦ elim (Bool-cases (is_some m.deleted_at)) [
                | inl e ↦ simp (found, at, opens, posts, own, e) tt
                | inr live ↦ elim (Bool-cases (is_expired s now m)) [
                  | inl e ↦ simp (found, at, opens, posts, own, live, e) tt
                  | inr in_time ↦
                      elim (Bool-cases
                        (length (strip body) == 0 || ltb max_body_chars (length (strip body)))) [
                          | inl e ↦ simp (found, at, opens, posts, own, live, in_time, e) tt
                          | inr fits ↦
                              let (same, member) : Same o.1 db
                                  × (is_active_member o.1 o.0.id actor ≡ true) =
                                rw opens at (accessible_rule s fresh v actor db) in
                              simp (found, at, opens, posts, own, live, in_time, fits)
                                (h m o.1 (record {
                                  found = found;
                                  same = same;
                                  own = own;
                                  live = live;
                                  in_time = in_time;
                                  fits = fits;
                                  member = (o.0, member, posts);
                                }))
                        ]
                ]
              ]
            ]
          ]
        ]
      ]
    ]

pub delete_rule :
    (Q : Message × Db → Type 0) (now actor id : ℕ) (db : Db)
    → ((m : Message) → find? (is_message id) db.messages ≡ some m → Q (write_tombstone now m db))
    → OnOk Q (delete_message now actor id db)
unfolding delete_message
delete_rule Q now actor id db h = elim (Option-cases (find? (is_message id) db.messages)) [
  | inl e ↦ rw e tt
  | inr (m, found) ↦ elim (Option-cases m.conversation_id) [
    | inl e ↦ simp (found, e) tt
    | inr (v, at) ↦ elim (Bool-cases (is_active_member db v actor)) [
      | inr e ↦ simp (found, at, e) tt
      | inl here ↦ elim (Bool-cases (not (m.sender_id == actor) && not (is_moderator db v actor))) [
        | inl e ↦ simp (found, at, here, e) tt
        | inr may ↦ simp (found, at, here, may) (h m found)
      ]
    ]
  ]
]

pub send_rule :
    (Q : (Message × Bool) × Db → Type 0) (s : Settings) (fresh now actor ref : ℕ)
    (p : MessageCreate) (db : Db)
    → ((v : Conversation) (opened : Db)
        → Same opened db
        → OnOk Q (
            persist_message_idempotent fresh now actor v
              (strip p.body)
              p.client_message_id
              p.reply_to_id
              opened))
    → OnOk Q (send_message s fresh now actor ref p db)
unfolding send_message assert_can_post
send_rule Q s fresh now actor ref p db h =
    elim (Result-cases (accessible_conversation s fresh ref actor db)) [
      | inr (x, e) ↦ simp (e) tt
      | inl (o, opens) ↦ elim (Bool-cases (dm_is_disconnected o.1 o.0)) [
        | inl e ↦ simp (opens, e) tt
        | inr posts ↦ elim (Result-cases (check_reply o.1 o.0.id p.reply_to_id)) [
          | inr (x, e) ↦ simp (opens, posts, e) tt
          | inl (u, e) ↦
              let (same, member) : Same o.1 db × (is_active_member o.1 o.0.id actor ≡ true) =
                rw opens at (accessible_rule s fresh ref actor db) in
              simp (opens, posts, e) (h o.0 o.1 same)
        ]
      ]
    ]

refused_rule :
    (Q : (Message × Bool) × Db → Type 0) (conversation : ℕ) (row : Message) (o : Option ℕ) (db : Db)
    → ((c : ℕ) (m : Message)
        → o ≡ some c
        → find? (is_client row.sender_id c) db.messages ≡ some m
        → is_in conversation m ≡ true
        → Q ((m, false), db))
    → OnOk Q (refused conversation row o db)
refused_rule Q conversation row none db old = tt
refused_rule Q conversation row (some c) db old =
    elim (Option-cases (find? (is_client row.sender_id c) db.messages)) [
      | inl e ↦ rw e tt
      | inr (m, e) ↦ elim (Bool-cases (is_in conversation m)) [
        | inr out ↦ rw (e, out) tt
        | inl here ↦ rw (e, here) (old c m refl e here)
      ]
    ]

pub persist_rule :
    (Q : (Message × Bool) × Db → Type 0) (conversation : ℕ) (row : Message) (db : Db)
    → (clashes row db.messages ≡ false
        → Q ((row, true), record db { messages = row ∷ db.messages }))
    → ((c : ℕ) (m : Message)
        → row.client_message_id ≡ some c
        → find? (is_client row.sender_id c) db.messages ≡ some m
        → is_in conversation m ≡ true
        → Q ((m, false), db))
    → OnOk Q (arbiter conversation row (clashes row db.messages) db)
persist_rule Q conversation row db new old = elim (Bool-cases (clashes row db.messages)) [
  | inr free ↦ rw free (new free)
  | inl taken ↦ rw taken (refused_rule Q conversation row row.client_message_id db old)
]
