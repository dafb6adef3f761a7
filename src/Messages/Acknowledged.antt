-- ===== src/Messages/Acknowledged.antt =====
-- What a person's acknowledgements in a conversation come to: `mark_delivered` and `mark_read` of
-- backend/app/features/realtime/service.py, in whatever order they arrive.
use lc_connect.Base.{ℕ, ◌≡◌, Option, none, some, List, find?, refl, ap, ◌∙◌}
use lc_connect.Messages.Defs.{Message, Member, Conversation, Db, Cursor, is_member}
use lc_connect.Messages.Receipts.{cursor_for, cursor_at, Receipt, receive_all}
use lc_connect.Messages.Cursors.{Keyed}
use lc_connect.Messages.Boundaries.{Bounds, promise_all, bounds, receive_all-Sees}
use lc_connect.Messages.Newest.{
  Ordered, Newest, acknowledged, as_read, as_delivered, moved_all-Newest, promise_all-moved,
  promise_all-Ordered,
}

-- The two boundaries of a member, where there is one.
abbrev pub bounds_of : List Message → Option Member → Option Bounds
bounds_of ms none = none
bounds_of ms (some k) = some (bounds ms k)

abbrev pub boundaries : Conversation → ℕ → Db → Option Bounds
boundaries v user db = bounds_of db.messages (find? (is_member v.id user) db.members)

receive_all-boundaries :
    (v : Conversation) (user : ℕ) (rs : List Receipt) (db : Db) (k : Member)
    → Keyed db.messages
    → find? (is_member v.id user) db.members ≡ some k
    → boundaries v user (receive_all v user rs db)
      ≡ some (promise_all (λ i. cursor_for v.id i db.messages) rs (bounds db.messages k))
receive_all-boundaries v user rs db k keyed h =
    let s =
      receive_all-Sees v user (λ i. cursor_for v.id i db.messages) rs (bounds db.messages k) db
        (record { keyed = keyed; looks = λ i. refl; member = k; found = h; same = refl }) in
    simp (s.found) (ap (λ b. some b) s.same)

-- A member acknowledges messages of a conversation as delivered or read, any number of them in any
-- order. Where the ids of messages are unique, afterwards the member still has boundaries, each is
-- at or past where it was and every message that was acknowledged, and it is where it was or at
-- one of these messages. Reading counts as delivered.
pub receive_all-Newest :
    (v : Conversation) (user : ℕ) (rs : List Receipt) (db : Db) (k : Member)
    → Keyed db.messages
    → find? (is_member v.id user) db.members ≡ some k
    → (b : Bounds) × (boundaries v user (receive_all v user rs db) ≡ some b)
      × Newest
          (cursor_at k.last_read db.messages)
          (acknowledged (as_read λ i. cursor_for v.id i db.messages) rs)
          b.read
      × Newest
          (cursor_at k.last_delivered db.messages)
          (acknowledged (as_delivered λ i. cursor_for v.id i db.messages) rs)
          b.delivered
receive_all-Newest v user rs db k keyed h =
    let look : ℕ → Option Cursor = λ i. cursor_for v.id i db.messages in
    (
      _,
      receive_all-boundaries v user rs db k keyed h
          ∙ ap (λ b. some b) (promise_all-moved look rs (bounds db.messages k)),
      moved_all-Newest (as_read look) rs (cursor_at k.last_read db.messages),
      moved_all-Newest (as_delivered look) rs (cursor_at k.last_delivered db.messages),
    )

-- A member's read boundary that is not past their delivery boundary stays so, whatever they
-- acknowledge in a conversation, where the ids of messages are unique.
pub receive_all-Ordered :
    (v : Conversation) (user : ℕ) (rs : List Receipt) (db : Db) (k : Member)
    → Keyed db.messages
    → find? (is_member v.id user) db.members ≡ some k
    → Ordered (bounds db.messages k)
    → (b : Bounds) × (boundaries v user (receive_all v user rs db) ≡ some b) × Ordered b
receive_all-Ordered v user rs db k keyed h ordered = (
  _,
  receive_all-boundaries v user rs db k keyed h,
  promise_all-Ordered (λ i. cursor_for v.id i db.messages) rs (bounds db.messages k) ordered,
)
