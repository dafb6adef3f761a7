-- ===== src/Messages/Boundaries.antt =====
-- What the acknowledgements of a person's devices, in any order, leave of their two boundaries:
-- `mark_delivered` and `mark_read` of backend/app/features/realtime/service.py against a pair of
-- cursors that only moves forward.
use lc_connect.Base.{
  ℕ, ◌≡◌, Option, none, some, List, [], ◌∷◌, find?, refl, ap, find?-passes, find?-update_first_self,
  subst, sym, ◌∙◌,
}
use lc_connect.Messages.Defs.{Message, Member, Conversation, Db, Cursor, is_member}
use lc_connect.Messages.Receipts.{
  cursor_for, cursor_at, advance_boundary, delivered_to, read_to, mark_delivered, mark_read,
  delivered_by, read_by, Receipt, delivered, read, receive, receive_all,
}
use lc_connect.Messages.Cursors.{
  newer, Keyed, cursor_for-lookup, cursor_at-advance_boundary, stamps, Keyed-stamps,
  cursor_for-stamps, at-stamps,
}

-- The two boundaries, as cursors.
pub record Bounds : Type 0 where
  pub read : Option Cursor
  pub delivered : Option Cursor

-- What an acknowledgement promises, `look` finding the message it names.
abbrev pub moved : Option Cursor → Option Cursor → Option Cursor
moved b none = b
moved b (some c) = newer b c

abbrev pub promise : (ℕ → Option Cursor) → Receipt → Bounds → Bounds
promise look (delivered through now) b = record b { delivered = moved b.delivered (look through) }
promise look (read through now) b = record {
  read = moved b.read (look through);
  delivered = moved b.delivered (look through);
}

unfoldable pub promise_all : (ℕ → Option Cursor) → List Receipt → Bounds → Bounds
promise_all look [] b = b
promise_all look (r ∷ rs) b = promise_all look rs (promise look r b)

abbrev pub bounds : List Message → Member → Bounds
bounds ms k = record { read = cursor_at k.last_read ms; delivered = cursor_at k.last_delivered ms }

-- A database in which a person's boundaries are `b` and messages are found by `look`.
pub record Sees (v : Conversation) (user : ℕ) (look : ℕ → Option Cursor) (b : Bounds) (db : Db)
    : Type 0 where
  pub keyed : Keyed db.messages
  pub looks : (i : ℕ) → cursor_for v.id i db.messages ≡ look i
  pub member : Member
  pub found : find? (is_member v.id user) db.members ≡ some member
  pub same : bounds db.messages member ≡ b

delivered_by-Sees :
    (v : Conversation) (user now i : ℕ) (look : ℕ → Option Cursor) (b : Bounds) (db : Db)
    (o : Option Cursor) (s : Sees v user look b db)
    → cursor_for v.id i db.messages ≡ o
    → Sees v user look
        (record b { delivered = moved b.delivered o })
        (delivered_by v.id user now o (some s.member) db).1
delivered_by-Sees v user now i look b db none s e = s
delivered_by-Sees v user now i look b db (some c) s e = record {
  keyed = s.keyed;
  looks = s.looks;
  member = delivered_to db.messages c s.member;
  found =
      find?-update_first_self (is_member v.id user) (delivered_to db.messages c) db.members
        {x = s.member} (find?-passes (is_member v.id user) db.members s.found) s.found;
  same =
      ap (λ x. record { read = cursor_at s.member.last_read db.messages; delivered = x })
        (cursor_at-advance_boundary db.messages s.member.last_delivered c
          (cursor_for-lookup v.id i db.messages s.keyed e))
      ∙ ap (λ d. record { read = d.read; delivered = newer d.delivered c }) s.same;
}

read_by-Sees :
    (v : Conversation) (user now i : ℕ) (look : ℕ → Option Cursor) (b : Bounds) (db : Db)
    (o : Option Cursor) (s : Sees v user look b db)
    → cursor_for v.id i db.messages ≡ o
    → Sees v user look
        (record { read = moved b.read o; delivered = moved b.delivered o })
        (read_by v user now o (some s.member) db).1
read_by-Sees v user now i look b db none s e = s
read_by-Sees v user now i look b db (some c) s e = record {
  keyed = Keyed-stamps v user c.0 now db.messages s.keyed;
  looks = λ j. cursor_for-stamps v user c.0 now j db.messages ∙ s.looks j;
  member = read_to db.messages c s.member;
  found =
      find?-update_first_self (is_member v.id user) (read_to db.messages c) db.members
        {x = s.member} (find?-passes (is_member v.id user) db.members s.found) s.found;
  same =
      ap
        (λ x. record {
          read = x;
          delivered =
              cursor_at (advance_boundary db.messages s.member.last_delivered c)
                (stamps v user c.0 now db.messages);
        })
        (at-stamps v user c.0 now i s.member.last_read db.messages s.keyed e)
      ∙ ap
          (λ x. record { read = newer (cursor_at s.member.last_read db.messages) c; delivered = x })
          (at-stamps v user c.0 now i s.member.last_delivered db.messages s.keyed e)
      ∙ ap (λ d. record { read = newer d.read c; delivered = newer d.delivered c }) s.same;
}

receive-Sees :
    (v : Conversation) (user : ℕ) (look : ℕ → Option Cursor) (r : Receipt) (b : Bounds) (db : Db)
    → Sees v user look b db
    → Sees v user look (promise look r b) (receive v user r db)
unfolding receive mark_delivered mark_read
receive-Sees v user look (delivered i now) b db s =
    let c = cursor_for v.id i db.messages in
    subst
      (λ m.
        Sees v user look (promise look (delivered i now) b) (delivered_by v.id user now c m db).1)
      (sym s.found)
      (subst
        (λ o.
          Sees v user look (record b { delivered = moved b.delivered o })
            (delivered_by v.id user now c (some s.member) db).1)
        (s.looks i) (delivered_by-Sees v user now i look b db c s refl))
receive-Sees v user look (read i now) b db s =
    let c = cursor_for v.id i db.messages in
    subst (λ m. Sees v user look (promise look (read i now) b) (read_by v user now c m db).1)
      (sym s.found)
      (subst
        (λ o.
          Sees v user look (record { read = moved b.read o; delivered = moved b.delivered o })
            (read_by v user now c (some s.member) db).1)
        (s.looks i) (read_by-Sees v user now i look b db c s refl))

pub receive_all-Sees :
    (v : Conversation) (user : ℕ) (look : ℕ → Option Cursor) (rs : List Receipt) (b : Bounds)
    (db : Db)
    → Sees v user look b db
    → Sees v user look (promise_all look rs b) (receive_all v user rs db)
unfolding receive_all promise_all
receive_all-Sees v user look [] b db s = s
receive_all-Sees v user look (r ∷ rs) b db s =
    receive_all-Sees v user look rs (promise look r b) (receive v user r db)
      (receive-Sees v user look r b db s)
