-- ===== src/Messages/History.antt =====
-- What `message_edits` keeps of a message's texts: backend/app/features/messages/editing.py.
use lc_connect.Base.{
  ℕ, ◌≡◌, refl, subst, true, ◌==◌, some, List, [], ◌∷◌, find?, ◌⊎◌, inl, inr, arith, Text,
  find?-passes,
}
use lc_connect.Messages.Defs.{Message, MessageEdit, Db, is_message}
use lc_connect.Messages.Access.{Settings}
use lc_connect.Messages.Sending.{tombstone, edited, Call, serve, run}
use lc_connect.Messages.Writes.{
  history, Wrote, nothing, adds, removes, changes, serve-Wrote, updated_row, added_row,
}
use lc_connect.Messages.Lives.{AllFresh}

-- A text that a message once had.
abbrev pub InHistory : ℕ → Text → List MessageEdit → Type 0
InHistory i b [] = ⊥
InHistory i b (e ∷ es) = ((e.message_id ≡ i) × (e.previous_body ≡ b)) ⊎ InHistory i b es

-- A text is a message's, or was.
abbrev pub Recorded : ℕ → Text → List Message → List MessageEdit → Type 0
Recorded i b ms es =
    (m : Message) × (find? (is_message i) ms ≡ some m) × ((m.body ≡ b) ⊎ InHistory i b es)

-- The edit of a message that has the text.
kept_text :
    (now i : ℕ) (b : Text) (x : Message) (ms : List Message) (es : List MessageEdit)
    → find? (is_message i) ms ≡ some x
    → (x.body ≡ b) ⊎ InHistory i b es
    → InHistory i b (history now x ∷ es)
kept_text now i b x ms es h (inl e) =
    let passes : (x.id == i) ≡ true = find?-passes (is_message i) ms h in
    inl (ground (arith, passes), e)
kept_text now i b x ms es h (inr e) = inr e

Wrote-Recorded :
    (a now i : ℕ) (b : Text) {ms ms' : List Message} {es es' : List MessageEdit}
    → Wrote a now ms es ms' es'
    → Recorded i b ms es
    → Recorded i b ms' es'
unfolding find?
Wrote-Recorded a now i b nothing h = h
Wrote-Recorded a now i b {ms = ms} (adds row fresh free) (m, h, t) =
    (m, added_row row m i ms fresh h, t)
Wrote-Recorded a now i b {ms = ms} {es = es} (removes x there live) (m, h, t) =
    elim (updated_row (tombstone now) x m i ms (λ y. refl) there h) [
      | inl same ↦ (m, same, t)
      | inr (e, self) ↦ (tombstone now x, self, subst (λ z. (z.body ≡ b) ⊎ InHistory i b es) e t)
    ]
Wrote-Recorded a now i b {ms = ms} {es = es} (changes x body there live own) (m, h, t) =
    elim (updated_row (edited now body) x m i ms (λ y. refl) there h) [
      | inl same ↦ (m, same, elim t [ inl e ↦ inl e | inr e ↦ inr (inr e) ])
      | inr (e, self) ↦ (
        edited now body x,
        self,
        inr (subst (λ z. InHistory i b (history now z ∷ es)) e (kept_text now i b m ms es h t)),
      )
    ]

-- Every text that a message has had since a time when its text or its history held it is its text or
-- in its history, whatever anyone sends, edits or deletes, if the messages that are sent have new
-- ids.
pub run-Recorded :
    (s : Settings) (cs : List Call) (db : Db) (i : ℕ) (b : Text)
    → AllFresh s cs db
    → Recorded i b db.messages db.edits
    → Recorded i b (run s cs db).messages (run s cs db).edits
unfolding run
run-Recorded s [] db i b fresh h = h
run-Recorded s (c ∷ cs) db i b (first, rest) h =
    run-Recorded s cs (serve s c c.request db) i b rest
      (Wrote-Recorded c.actor c.now i b (serve-Wrote s c c.request db first) h)
