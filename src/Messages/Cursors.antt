-- ===== src/Messages/Cursors.antt =====
-- Finding a message by its id, and a boundary, through what `mark_read` of
-- backend/app/features/realtime/service.py writes on the messages.
use lc_connect.Base.{
  ℕ, ◌≡◌, ◌≤◌, Bool, true, not, ◌&&◌, Option, none, some, List, [], ◌∷◌, ◌==◌, leb, if◌then◌else◌,
  find?, is_some, arith, refl, Bool-cases, Option-cases, inl, inr, ap, count_if, count_if-pos,
  find?-passes, subst, ◌∙◌, weight, ◌+◌,
}
use lc_connect.Messages.Defs.{
  Message, Conversation, Cursor, cursor_of, before, is_message, is_in, is_group, lookup,
  cursor_of_row,
}
use lc_connect.Messages.Receipts.{
  names, cursor_for, cursor_at, advance_boundary, stamped, stamp_read,
}

abbrev pub newer : Option Cursor → Cursor → Option Cursor
newer none c = some c
newer (some b) c = if before b c then some c else some b

-- The primary key of messages.
abbrev pub Keyed : List Message → Type 0
Keyed ms = (i : ℕ) → count_if (is_message i) ms ≤ 1

stamped-row :
    (v reader through now : ℕ) (p : Message → Bool) (m : Message)
    → ((m : Message) (t : Option ℕ) → p (record m { read_at = t }) ≡ p m)
    → (p (stamped v reader through now m) ≡ p m)
      × (cursor_of (stamped v reader through now m) ≡ cursor_of m)
stamped-row v reader through now p m same =
    elim (Bool-cases (
      is_in v m
      && not (m.sender_id == reader)
      && leb m.created_at through
      && not (is_some m.read_at))) [
        | inl e ↦ simp (e, same) (refl, refl)
        | inr e ↦ simp (e) (refl, refl)
      ]

lookup-stamp_read :
    (v reader through now : ℕ) (p : Message → Bool) (ms : List Message)
    → ((m : Message) (t : Option ℕ) → p (record m { read_at = t }) ≡ p m)
    → lookup p (stamp_read v reader through now ms) ≡ lookup p ms
unfolding stamp_read find?
lookup-stamp_read v reader through now p [] same = refl
lookup-stamp_read v reader through now p (m ∷ ms) same =
    let s = stamped-row v reader through now p m same in
    let rest = lookup-stamp_read v reader through now p ms same in
    elim (Bool-cases (p m)) [
      | inl e ↦ simp (s.0, e) (ap (λ c. some c) s.1)
      | inr e ↦ simp (s.0, e) rest
    ]

Keyed-stamp_read :
    (v reader through now : ℕ) (ms : List Message) (i : ℕ)
    → count_if (is_message i) (stamp_read v reader through now ms) ≡ count_if (is_message i) ms
unfolding stamp_read count_if
Keyed-stamp_read v reader through now [] i = refl
Keyed-stamp_read v reader through now (m ∷ ms) i =
    rw ((stamped-row v reader through now (is_message i) m (λ m t. refl)).0)
      (ap (λ n. weight (is_message i m) + n) (Keyed-stamp_read v reader through now ms i))

-- Under a key, a narrower query finds the row that the key finds.
find?-narrower :
    (p q : Message → Bool) (ms : List Message) {m : Message}
    → ((x : Message) → q x ≡ true → p x ≡ true)
    → count_if p ms ≤ 1
    → find? q ms ≡ some m
    → find? p ms ≡ some m
unfolding find? count_if
find?-narrower p q [] sub one h = cc
find?-narrower p q (x ∷ ms) {m} sub one h = elim (Bool-cases (q x)) [
  | inl e ↦ rw (sub x e) (rw e at h)
  | inr e ↦ elim (Bool-cases (p x)) [
    | inl e' ↦ ground (
      arith,
      count_if-pos q p ms {x = m} (rw e at h) (sub m (find?-passes q ms (rw e at h))),
      rw e' at one,
    )
    | inr e' ↦ rw e' (find?-narrower p q ms {m = m} sub (omega (arith, rw e' at one)) (rw e at h))
  ]
]

pub cursor_for-lookup :
    (v i : ℕ) (ms : List Message) {c : Cursor}
    → Keyed ms
    → cursor_for v i ms ≡ some c
    → lookup (is_message c.1) ms ≡ some c
unfolding cursor_for
cursor_for-lookup v i ms {c} keyed h = elim (Option-cases (find? (names v i) ms)) [
  | inl e ↦ cc
  | inr (m, e) ↦
      let row : names v i m ≡ true = find?-passes (names v i) ms e in
      let found : find? (is_message m.id) ms ≡ some m =
        find?-narrower (is_message m.id) (names v i) ms (λ x t. ground (arith, row, t)) (keyed m.id)
          e in
      subst (λ c. lookup (is_message c.1) ms ≡ some c) (cc) (ap cursor_of_row found)
]

pub cursor_at-advance_boundary :
    (ms : List Message) (current : Option ℕ) (c : Cursor)
    → lookup (is_message c.1) ms ≡ some c
    → cursor_at (advance_boundary ms current c) ms ≡ newer (cursor_at current ms) c
unfolding advance_boundary
cursor_at-advance_boundary ms current c h = elim (Option-cases (cursor_at current ms)) [
  | inl e ↦ rw e h
  | inr (b, e) ↦ elim (Bool-cases (before b c)) [
    | inl e' ↦ simp (e, e') h
    | inr e' ↦ simp (e, e') refl
  ]
]

-- What a reader's stamps leave of the messages.
abbrev pub stamps : Conversation → ℕ → ℕ → ℕ → List Message → List Message
stamps v user through now ms = if is_group v.kind then ms else stamp_read v.id user through now ms

pub Keyed-stamps :
    (v : Conversation) (user through now : ℕ) (ms : List Message)
    → Keyed ms
    → Keyed (stamps v user through now ms)
Keyed-stamps v user through now ms keyed i = elim (Bool-cases (is_group v.kind)) [
  | inl e ↦ simp (e) (keyed i)
  | inr e ↦ simp (e) (rw (Keyed-stamp_read v.id user through now ms i) (keyed i))
]

pub cursor_for-stamps :
    (v : Conversation) (user through now i : ℕ) (ms : List Message)
    → cursor_for v.id i (stamps v user through now ms) ≡ cursor_for v.id i ms
unfolding cursor_for
cursor_for-stamps v user through now i ms = elim (Bool-cases (is_group v.kind)) [
  | inl e ↦ simp (e) refl
  | inr e ↦ simp (e) (lookup-stamp_read v.id user through now (names v.id i) ms (λ m t. refl))
]

cursor_at-stamps :
    (v : Conversation) (user through now : ℕ) (o : Option ℕ) (ms : List Message)
    → cursor_at o (stamps v user through now ms) ≡ cursor_at o ms
cursor_at-stamps v user through now none ms = refl
cursor_at-stamps v user through now (some i) ms = elim (Bool-cases (is_group v.kind)) [
  | inl e ↦ simp (e) refl
  | inr e ↦ simp (e) (lookup-stamp_read v.id user through now (is_message i) ms (λ m t. refl))
]

-- A boundary after an acknowledgement and its stamps.
pub at-stamps :
    (v : Conversation) (user through now i : ℕ) (o : Option ℕ) (ms : List Message) {c : Cursor}
    → Keyed ms
    → cursor_for v.id i ms ≡ some c
    → cursor_at (advance_boundary ms o c) (stamps v user through now ms) ≡ newer (cursor_at o ms) c
at-stamps v user through now i o ms {c} keyed h =
    cursor_at-stamps v user through now (advance_boundary ms o c) ms
    ∙ cursor_at-advance_boundary ms o c (cursor_for-lookup v.id i ms keyed h)
