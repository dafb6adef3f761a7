-- ===== src/Messages/Retry.antt =====
-- A message that is sent twice: `persist_message_idempotent` of
-- backend/app/features/messages/service.py, and the index that is its arbiter.
use lc_connect.Base.{
  ℕ, ◌≡◌, refl, subst, Bool, true, false, Option, some, ◌∷◌, find?, any_row, any_row-count,
  count_if-pos, inl, inr, Bool-cases, arith, Text, find?-passes, OnOk-elim, ok,
}
use lc_connect.Messages.Defs.{Message, Conversation, Db, is_in}
use lc_connect.Messages.Sending.{is_client, clashes, new_message, persist_message_idempotent}
use lc_connect.Messages.Rules.{persist_rule}

-- What a send again answers.
abbrev Again : ℕ → ℕ → ℕ → Conversation → Text → Option ℕ → ℕ → (Message × Bool) × Db → Type 0
Again fresh now sender v body reply c r =
    persist_message_idempotent fresh now sender v body (some c) reply r.1 ≡ ok ((r.0.0, false), r.1)

found-again :
    (fresh now sender : ℕ) (v : Conversation) (body : Text) (reply : Option ℕ) (c : ℕ) (m : Message)
    (db : Db)
    → find? (is_client sender c) db.messages ≡ some m
    → is_in v.id m ≡ true
    → persist_message_idempotent fresh now sender v body (some c) reply db ≡ ok ((m, false), db)
unfolding persist_message_idempotent clashes
found-again fresh now sender v body reply c m db found here =
    elim (Bool-cases (any_row (is_client sender c) db.messages)) [
      | inl e ↦ rw (e, found, here) refl
      | inr e ↦ ground (
        arith,
        any_row-count (is_client sender c) db.messages e,
        count_if-pos (is_client sender c) (is_client sender c) db.messages found
            (find?-passes (is_client sender c) db.messages found),
      )
    ]

-- A client that sends a message again, to the same conversation and with the same id, whatever its
-- text now, gets the message that the first request answered with, and nothing is written. The
-- first request may itself have been a retry.
pub persist-again :
    (fresh now fresh' now' sender c : ℕ) (v : Conversation) (body body' : Text)
    (reply reply' : Option ℕ) (db : Db) (r : (Message × Bool) × Db)
    → persist_message_idempotent fresh now sender v body (some c) reply db ≡ ok r
    → persist_message_idempotent fresh' now' sender v body' (some c) reply' r.1
      ≡ ok ((r.0.0, false), r.1)
unfolding persist_message_idempotent find?
persist-again fresh now fresh' now' sender c v body body' reply reply' db r h =
    let row = new_message fresh now sender v body (some c) reply in
    let self : is_client sender c row ≡ true = ground arith in
    OnOk-elim (Again fresh' now' sender v body' reply' c) _ r h (
      persist_rule (Again fresh' now' sender v body' reply' c) v.id row db
        (λ free.
          found-again fresh' now' sender v body' reply' c row
            (record db { messages = row ∷ db.messages }) (rw (self) refl) (ground arith))
        (λ k m e found here.
          found-again fresh' now' sender v body' reply' c m db
            (subst (λ j. find? (is_client sender j) db.messages ≡ some m) (cc) found) here))
