-- ===== src/Messages/Lives.antt =====
-- What becomes of a message while people send, edit and delete: backend/app/features/messages.
use lc_connect.Base.{
  ℕ, ◌≡◌, ◌≢◌, refl, sym, subst, ap, ◌∙◌, true, false, none, some, List, [], ◌∷◌, find?, is_some,
  inl, inr, Text, All,
}
use lc_connect.Messages.Defs.{Message, MessageEdit, Db, is_message}
use lc_connect.Messages.Access.{Settings}
use lc_connect.Messages.Sending.{tombstone, edited, Call, serve, run}
use lc_connect.Messages.Writes.{
  Wrote, nothing, adds, removes, changes, serve-Wrote, updated_row, added_row,
}

-- Ids are new to the table: a UUID that the process draws.
abbrev pub AllFresh : Settings → List Call → Db → Type 0
AllFresh s [] db = Unit
AllFresh s (c ∷ cs) db =
    (find? (is_message c.fresh) db.messages ≡ none) × AllFresh s cs (serve s c c.request db)

-- What a message may become by the calls of `actors`.
pub record Later (actors : List ℕ) (m m' : Message) : Type 0 where
  pub sender : m'.sender_id ≡ m.sender_id
  pub place : m'.conversation_id ≡ m.conversation_id
  pub sent_at : m'.created_at ≡ m.created_at
  pub final : is_some m.deleted_at ≡ true → m' ≡ m
  pub words : All (λ a. a ≢ m.sender_id) actors → m'.body ≡ m.body

-- A message is in the table, and is what `m` may become.
abbrev pub Lives : List ℕ → ℕ → Message → List Message → Type 0
Lives actors i m ms = (m' : Message) × (find? (is_message i) ms ≡ some m') × Later actors m m'

Later-self : (actors : List ℕ) (m : Message) → Later actors m m
Later-self actors m = record {
  sender = refl;
  place = refl;
  sent_at = refl;
  final = λ d. refl;
  words = λ a. refl;
}

Later-then :
    (a : ℕ) (rest : List ℕ) (m m' m'' : Message)
    → Later (a ∷ []) m m'
    → Later rest m' m''
    → Later (a ∷ rest) m m''
Later-then a rest m m' m'' p q = record {
  sender = q.sender ∙ p.sender;
  place = q.place ∙ p.place;
  sent_at = q.sent_at ∙ p.sent_at;
  final = λ d. q.final (subst (λ x. is_some x.deleted_at ≡ true) (sym (p.final d)) d) ∙ p.final d;
  words = λ h. q.words (subst (λ x. All (λ a. a ≢ x) rest) (sym p.sender) h.1) ∙ p.words (h.0, tt);
}

Later-tombstone :
    (a now : ℕ) (m : Message) → is_some m.deleted_at ≡ false → Later (a ∷ []) m (tombstone now m)
Later-tombstone a now m live = record {
  sender = refl;
  place = refl;
  sent_at = refl;
  final = λ d. cc;
  words = λ h. refl;
}

Later-edited :
    (a now : ℕ) (body : Text) (m : Message)
    → is_some m.deleted_at ≡ false
    → m.sender_id ≡ a
    → Later (a ∷ []) m (edited now body m)
Later-edited a now body m live own = record {
  sender = refl;
  place = refl;
  sent_at = refl;
  final = λ d. cc;
  words = λ h. elim (h.0 (sym own)) [ ];
}

Wrote-Lives :
    (a now i : ℕ) (m : Message) {ms ms' : List Message} {es es' : List MessageEdit}
    → Wrote a now ms es ms' es'
    → find? (is_message i) ms ≡ some m
    → Lives (a ∷ []) i m ms'
unfolding find?
Wrote-Lives a now i m nothing h = (m, h, Later-self (a ∷ []) m)
Wrote-Lives a now i m {ms = ms} (adds row fresh free) h =
    (m, added_row row m i ms fresh h, Later-self (a ∷ []) m)
Wrote-Lives a now i m {ms = ms} (removes x there live) h =
    elim (updated_row (tombstone now) x m i ms (λ y. refl) there h) [
      | inl same ↦ (m, same, Later-self (a ∷ []) m)
      | inr (e, self) ↦ (
        tombstone now x,
        self,
        subst (λ z. Later (a ∷ []) z (tombstone now x)) (sym e) (Later-tombstone a now x live),
      )
    ]
Wrote-Lives a now i m {ms = ms} (changes x body there live own) h =
    elim (updated_row (edited now body) x m i ms (λ y. refl) there h) [
      | inl same ↦ (m, same, Later-self (a ∷ []) m)
      | inr (e, self) ↦ (
        edited now body x,
        self,
        subst (λ z. Later (a ∷ []) z (edited now body x)) (sym e)
            (Later-edited a now body x live own),
      )
    ]

abbrev pub actors_of : List Call → List ℕ
actors_of [] = []
actors_of (c ∷ cs) = c.actor ∷ actors_of cs

run-Lives :
    (s : Settings) (cs : List Call) (db : Db) (i : ℕ) (m : Message)
    → AllFresh s cs db
    → find? (is_message i) db.messages ≡ some m
    → Lives (actors_of cs) i m (run s cs db).messages
unfolding run
run-Lives s [] db i m fresh h = (m, h, Later-self [] m)
run-Lives s (c ∷ cs) db i m (first, rest) h =
    let (m', there, p) = Wrote-Lives c.actor c.now i m (serve-Wrote s c c.request db first) h in
    let (m'', found, q) = run-Lives s cs (serve s c c.request db) i m' rest there in
    (m'', found, Later-then c.actor (actors_of cs) m m' m'' p q)

-- A message that is deleted stays as it is, whatever anyone sends, edits or deletes afterwards, if
-- the messages that are sent have new ids.
pub run-tombstone :
    (s : Settings) (cs : List Call) (db : Db) (i : ℕ) (m : Message)
    → AllFresh s cs db
    → find? (is_message i) db.messages ≡ some m
    → is_some m.deleted_at ≡ true
    → find? (is_message i) (run s cs db).messages ≡ some m
run-tombstone s cs db i m fresh h deleted =
    let (m', there, p) = run-Lives s cs db i m fresh h in there ∙ ap (λ x. some x) (p.final deleted)

-- Whatever others than its sender send, edit or delete, moderators included, a message stays in the
-- table with its text, its sender, its conversation and its time, if the messages that are sent
-- have new ids.
pub run-words :
    (s : Settings) (cs : List Call) (db : Db) (i : ℕ) (m : Message)
    → AllFresh s cs db
    → find? (is_message i) db.messages ≡ some m
    → All (λ a. a ≢ m.sender_id) (actors_of cs)
    → (m' : Message) × (find? (is_message i) (run s cs db).messages ≡ some m')
      × (m'.body ≡ m.body)
      × (m'.sender_id ≡ m.sender_id)
      × (m'.conversation_id ≡ m.conversation_id)
      × (m'.created_at ≡ m.created_at)
run-words s cs db i m fresh h others =
    let (m', there, p) = run-Lives s cs db i m fresh h in
    (m', there, p.words others, p.sender, p.place, p.sent_at)
