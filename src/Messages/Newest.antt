-- ===== src/Messages/Newest.antt =====
-- The boundaries after any acknowledgements: the newest message that was acknowledged, and never
-- read beyond what was delivered.
use lc_connect.Base.{
  ℕ, ◌≡◌, false, Option, none, some, List, [], ◌∷◌, arith, refl, Bool-cases, inl, inr, ◌⊎◌, All,
}
use lc_connect.Messages.Defs.{Cursor, before}
use lc_connect.Messages.Receipts.{Receipt, delivered, read}
use lc_connect.Messages.Cursors.{newer}
use lc_connect.Messages.Boundaries.{Bounds, moved, promise, promise_all}

-- A boundary is at a cursor or past it.
abbrev pub Reached : Option Cursor → Cursor → Type 0
Reached none c = ⊥
Reached (some b) c = before b c ≡ false

abbrev pub Past : Option Cursor → Option Cursor → Type 0
Past o none = Unit
Past o (some c) = Reached o c

-- Nothing is read that was not delivered.
abbrev pub Ordered : Bounds → Type 0
Ordered b = Past b.delivered b.read

abbrev pub OneOf : Option Cursor → List Cursor → Type 0
OneOf o [] = ⊥
OneOf o (c ∷ cs) = (o ≡ some c) ⊎ OneOf o cs

-- The newest of where a boundary was and of the cursors that were acknowledged.
pub record Newest (start : Option Cursor) (cs : List Cursor) (o : Option Cursor) : Type 0 where
  pub kept : Past o start
  pub covers : All (Reached o) cs
  pub from : (o ≡ start) ⊎ OneOf o cs

abbrev pub also : Option Cursor → List Cursor → List Cursor
also none cs = cs
also (some c) cs = c ∷ cs

-- The cursors of the messages that the acknowledgements name, where they name one.
abbrev pub acknowledged : (Receipt → Option Cursor) → List Receipt → List Cursor
acknowledged f [] = []
acknowledged f (r ∷ rs) = also (f r) (acknowledged f rs)

abbrev pub as_read : (ℕ → Option Cursor) → Receipt → Option Cursor
as_read look (delivered i now) = none
as_read look (read i now) = look i

-- What is read was delivered.
abbrev pub as_delivered : (ℕ → Option Cursor) → Receipt → Option Cursor
as_delivered look (delivered i now) = look i
as_delivered look (read i now) = look i

newer-Reached : (o : Option Cursor) (c : Cursor) → Reached (newer o c) c
newer-Reached none c = ground arith
newer-Reached (some b) c = elim (Bool-cases (before b c)) [
  | inl e ↦ rw e (ground arith)
  | inr e ↦ rw e e
]

Reached-newer : (o : Option Cursor) (c d : Cursor) → Reached o d → Reached (newer o c) d
Reached-newer none c d h = elim h [ ]
Reached-newer (some b) c d h = elim (Bool-cases (before b c)) [
  | inl e ↦ rw e (ground arith)
  | inr e ↦ rw e h
]

-- What is past the newer of two is past both.
Past-newer : (o b : Option Cursor) (c : Cursor) → Past o (newer b c) → Past o b × Reached o c
Past-newer none none c h = elim h [ ]
Past-newer (some a) none c h = (tt, h)
Past-newer none (some b) c h = elim (Bool-cases (before b c)) [
  | inl e ↦ elim (rw e at h) [ ]
  | inr e ↦ elim (rw e at h) [ ]
]
Past-newer (some a) (some b) c h = elim (Bool-cases (before b c)) [
  | inl e ↦ let h' = rw e at h in (ground arith, h')
  | inr e ↦ let h' = rw e at h in (h', ground arith)
]

newer-from : (o b : Option Cursor) (c : Cursor) → o ≡ newer b c → (o ≡ b) ⊎ (o ≡ some c)
newer-from o none c h = inr h
newer-from o (some b) c h = elim (Bool-cases (before b c)) [
  | inl e ↦ inr (rw e at h)
  | inr e ↦ inl (rw e at h)
]

Newest-newer :
    (o b : Option Cursor) (c : Cursor) (cs : List Cursor)
    → Newest (newer b c) cs o
    → Newest b (c ∷ cs) o
Newest-newer o b c cs n =
    let past = Past-newer o b c n.kept in
    record {
      kept = past.0;
      covers = (past.1, n.covers);
      from = elim n.from [
        | inl e ↦ elim (newer-from o b c e) [ inl e' ↦ inl e' | inr e' ↦ inr (inl e') ]
        | inr m ↦ inr (inr m)
      ];
    }

Newest-moved :
    (x b o : Option Cursor) (cs : List Cursor) → Newest (moved b o) cs x → Newest b (also o cs) x
Newest-moved x b none cs n = n
Newest-moved x b (some c) cs n = Newest-newer x b c cs n

Past-self : (o : Option Cursor) → Past o o
Past-self none = tt
Past-self (some c) = ground arith

-- A boundary that each acknowledgement moves by `f`.
abbrev pub moved_all : (Receipt → Option Cursor) → List Receipt → Option Cursor → Option Cursor
moved_all f [] b = b
moved_all f (r ∷ rs) b = moved_all f rs (moved b (f r))

pub moved_all-Newest :
    (f : Receipt → Option Cursor) (rs : List Receipt) (b : Option Cursor)
    → Newest b (acknowledged f rs) (moved_all f rs b)
moved_all-Newest f [] b = record { kept = Past-self b; covers = tt; from = inl refl }
moved_all-Newest f (r ∷ rs) b =
    Newest-moved (moved_all f rs (moved b (f r))) b (f r) (acknowledged f rs)
      (moved_all-Newest f rs (moved b (f r)))

pub promise_all-moved :
    (look : ℕ → Option Cursor) (rs : List Receipt) (b : Bounds)
    → promise_all look rs b ≡ record {
      read = moved_all (as_read look) rs b.read;
      delivered = moved_all (as_delivered look) rs b.delivered;
    }
unfolding promise_all
promise_all-moved look [] b = refl
promise_all-moved look (delivered i now ∷ rs) b =
    promise_all-moved look rs (promise look (delivered i now) b)
promise_all-moved look (read i now ∷ rs) b = promise_all-moved look rs (promise look (read i now) b)

newer-Ordered : (d r : Option Cursor) (c : Cursor) → Past d r → Past (newer d c) (newer r c)
newer-Ordered d none c h = newer-Reached d c
newer-Ordered d (some b) c h = elim (Bool-cases (before b c)) [
  | inl e ↦ rw e (newer-Reached d c)
  | inr e ↦ rw e (Reached-newer d c b h)
]

Past-moved : (d r : Option Cursor) (o : Option Cursor) → Past d r → Past (moved d o) r
Past-moved d none o h = tt
Past-moved d (some b) none h = h
Past-moved d (some b) (some c) h = Reached-newer d c b h

moved-Ordered : (d r o : Option Cursor) → Past d r → Past (moved d o) (moved r o)
moved-Ordered d r none h = h
moved-Ordered d r (some c) h = newer-Ordered d r c h

pub promise_all-Ordered :
    (look : ℕ → Option Cursor) (rs : List Receipt) (b : Bounds)
    → Ordered b
    → Ordered (promise_all look rs b)
unfolding promise_all
promise_all-Ordered look [] b h = h
promise_all-Ordered look (delivered i now ∷ rs) b h =
    promise_all-Ordered look rs (promise look (delivered i now) b)
      (Past-moved b.delivered b.read (look i) h)
promise_all-Ordered look (read i now ∷ rs) b h =
    promise_all-Ordered look rs (promise look (read i now) b)
      (moved-Ordered b.delivered b.read (look i) h)
