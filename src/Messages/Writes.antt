-- ===== src/Messages/Writes.antt =====
-- What one request of backend/app/features/messages writes on the tables of messages and edits, as a
-- step relation.
use lc_connect.Base.{
  ℕ, ◌≡◌, sym, subst, true, false, none, some, List, ◌∷◌, ◌==◌, find?, is_some, update_first,
  Result, ok, err, OnOk, ◌⊎◌, inl, inr, Bool-cases, arith, Text, strip, text_eq, ◌∙◌, find?-passes,
  find?-update_first_self, find?-update_first_other,
}
use lc_connect.Messages.Defs.{Message, MessageEdit, Db, is_message}
use lc_connect.Messages.Access.{Settings, Error}
use lc_connect.Messages.Sending.{
  send_message, new_message, clashes, persist_message_idempotent, delete_message, write_tombstone,
  tombstone, edit_message, write_edit, edited, Request, send, edit, remove, Call, committed, serve,
}
use lc_connect.Messages.Rules.{Same, MayEdit, edit_rule, delete_rule, send_rule, persist_rule}

abbrev pub history : ℕ → Message → MessageEdit
history now m = record { message_id = m.id; previous_body = m.body; edited_at = now }

pub data Wrote (actor now : ℕ) (ms : List Message) (es : List MessageEdit)
    : List Message → List MessageEdit → Type 0 where
  nothing : Wrote actor now ms es ms es
  adds :
      (row : Message)
      → find? (is_message row.id) ms ≡ none
      → clashes row ms ≡ false
      → Wrote actor now ms es (row ∷ ms) es
  removes :
      (m : Message)
      → find? (is_message m.id) ms ≡ some m
      → is_some m.deleted_at ≡ false
      → Wrote actor now ms es (update_first (is_message m.id) (tombstone now) ms) es
  changes :
      (m : Message) (body : Text)
      → find? (is_message m.id) ms ≡ some m
      → is_some m.deleted_at ≡ false
      → m.sender_id ≡ actor
      → Wrote actor now ms es
          (update_first (is_message m.id) (edited now body) ms)
          (history now m ∷ es)

abbrev Writes : ℕ → ℕ → Db → Db → Type 0
Writes actor now a b = Wrote actor now a.messages a.edits b.messages b.edits

Writes-Same :
    (actor now : ℕ) (o db d : Db) → Same o db → Writes actor now o d → Writes actor now db d
Writes-Same actor now o db d same w =
    subst (λ ms. Wrote actor now ms db.edits d.messages d.edits) same.0
      (subst (λ es. Wrote actor now o.messages es d.messages d.edits) same.1 w)

-- A row is found by its own id.
own_id :
    (i : ℕ) (ms : List Message) (m : Message)
    → find? (is_message i) ms ≡ some m
    → find? (is_message m.id) ms ≡ some m
own_id i ms m h =
    let passes : (m.id == i) ≡ true = find?-passes (is_message i) ms h in
    let same : i ≡ m.id = ground (arith, passes) in
    subst (λ j. find? (is_message j) ms ≡ some m) same h

committed-rule :
    {A : Type 0} (Q : Db → Type 0) (r : Result Error (A × Db)) (db : Db)
    → OnOk (λ x. Q x.1) r
    → Q db
    → Q (committed r db)
committed-rule Q (ok x) db h k = h
committed-rule Q (err e) db h k = k

tombstone-Wrote :
    (actor now id : ℕ) (m : Message) (db : Db)
    → find? (is_message id) db.messages ≡ some m
    → Writes actor now db (write_tombstone now m db).1
unfolding write_tombstone
tombstone-Wrote actor now id m db h = elim (Bool-cases (is_some m.deleted_at)) [
  | inl e ↦ rw e nothing
  | inr e ↦ rw e (removes m (own_id id db.messages m h) e)
]

edit-Wrote :
    (s : Settings) (actor now id : ℕ) (body : Text) (m : Message) (db opened : Db)
    → MayEdit s now actor id body m db opened
    → Writes actor now opened (write_edit now (strip body) m opened).1
unfolding write_edit
edit-Wrote s actor now id body m db opened may = elim (Bool-cases (text_eq (strip body) m.body)) [
  | inl e ↦ rw e nothing
  | inr e ↦
      let found = subst (λ ms. find? (is_message id) ms ≡ some m) (sym may.same.0) may.found in
      rw e (
        changes m (strip body) (own_id id opened.messages m found) may.live
          (ground (arith, may.own)))
]

pub serve-Wrote :
    (s : Settings) (c : Call) (r : Request) (db : Db)
    → find? (is_message c.fresh) db.messages ≡ none
    → Writes c.actor c.now db (serve s c r db)
unfolding serve persist_message_idempotent
serve-Wrote s c (send ref p) db fresh =
    committed-rule (Writes c.actor c.now db) (send_message s c.fresh c.now c.actor ref p db) db
      (send_rule (λ x. Writes c.actor c.now db x.1) s c.fresh c.now c.actor ref p db
        (λ v o same.
          let row =
            new_message c.fresh c.now c.actor v (strip p.body) p.client_message_id p.reply_to_id in
          persist_rule (λ x. Writes c.actor c.now db x.1) v.id row o
            (λ free.
              Writes-Same c.actor c.now o db (record o { messages = row ∷ o.messages }) same
                (adds row (subst (λ ms. find? (is_message c.fresh) ms ≡ none) (sym same.0) fresh)
                  free))
            (λ k m e e' e''. Writes-Same c.actor c.now o db o same nothing)))
      nothing
serve-Wrote s c (edit id body) db fresh =
    committed-rule (Writes c.actor c.now db) (edit_message s c.fresh c.now c.actor id body db) db
      (edit_rule (λ x. Writes c.actor c.now db x.1) s c.fresh c.now c.actor id body db
        (λ m o may.
          Writes-Same c.actor c.now o db (write_edit c.now (strip body) m o).1 may.same
            (edit-Wrote s c.actor c.now id body m db o may)))
      nothing
serve-Wrote s c (remove id) db fresh =
    committed-rule (Writes c.actor c.now db) (delete_message c.now c.actor id db) db
      (delete_rule (λ x. Writes c.actor c.now db x.1) c.now c.actor id db
        (λ m found. tombstone-Wrote c.actor c.now id m db found))
      nothing

-- A row that was there, after another or itself was updated.
pub updated_row :
    (f : Message → Message) (m x : Message) (i : ℕ) (ms : List Message)
    → ((y : Message) → (f y).id ≡ y.id)
    → find? (is_message m.id) ms ≡ some m
    → find? (is_message i) ms ≡ some x
    → (find? (is_message i) (update_first (is_message m.id) f ms) ≡ some x)
      ⊎ ((x ≡ m) × (find? (is_message i) (update_first (is_message m.id) f ms) ≡ some (f m)))
updated_row f m x i ms keeps hm hx = elim (Bool-cases (m.id == i)) [
  | inl e ↦
      let same : i ≡ m.id = ground (arith, e) in
      let found : find? (is_message m.id) ms ≡ some x =
        subst (λ j. find? (is_message j) ms ≡ some x) same hx in
      let self : find? (is_message m.id) (update_first (is_message m.id) f ms) ≡ some (f m) =
        find?-update_first_self (is_message m.id) f ms {x = m} (ground (arith, keeps m)) hm in
      inr (
        cc,
        subst (λ j. find? (is_message j) (update_first (is_message m.id) f ms) ≡ some (f m))
            (sym same) self,
      )
  | inr e ↦ inl (
      find?-update_first_other (is_message m.id) (is_message i) f ms (λ y t. ground (arith, e, t))
        (λ y t. ground (arith, e, t, keeps y))
      ∙ hx)
]

-- A row with a new id hides none.
pub added_row :
    (row m : Message) (i : ℕ) (ms : List Message)
    → find? (is_message row.id) ms ≡ none
    → find? (is_message i) ms ≡ some m
    → find? (is_message i) (row ∷ ms) ≡ some m
unfolding find?
added_row row m i ms fresh h = elim (Bool-cases (row.id == i)) [
  | inl e ↦
      let same : row.id ≡ i = ground (arith, e) in
      let none_there : find? (is_message i) ms ≡ none =
        subst (λ j. find? (is_message j) ms ≡ none) same fresh in
      cc
  | inr e ↦ rw e h
]
