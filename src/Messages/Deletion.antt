-- ===== src/Messages/Deletion.antt =====
-- What the deletion of a batch of backend/app/shared/message_retention.py leaves.
use lc_connect.Base.{
  ◌≡◌, ◌≤◌, ◌+◌, ◌∙◌, refl, ap, subst, Bool, true, false, not, ◌&&◌, none, List, [], ◌∷◌, ◌==◌,
  if◌then◌else◌, any_row, filter_rows, count_if, count_if_mono, length, All, inl, inr, Bool-cases,
  arith, map, any_row-pos,
}
use lc_connect.Messages.Defs.{Message, is_message}
use lc_connect.Messages.Cursors.{Keyed}
use lc_connect.Messages.Retention.{in_batch, unquoted, delete_rows}
use lc_connect.Messages.Batches.{IsRow}

-- Two tests that no row passes both.
count_if-apart :
    (p q e : Message → Bool) (xs : List Message)
    → ((x : Message) → p x ≡ true → q x ≡ false)
    → count_if (λ x. (if p x then true else q x) && e x) xs
      ≡ count_if (λ x. p x && e x) xs + count_if (λ x. q x && e x) xs
unfolding count_if
count_if-apart p q e [] h = refl
count_if-apart p q e (x ∷ xs) h = ground (arith, h x, count_if-apart p q e xs h)

count_if-split :
    (p e : Message → Bool) (xs : List Message)
    → count_if p xs ≡ count_if (λ x. p x && e x) xs + count_if (λ x. p x && not (e x)) xs
unfolding count_if
count_if-split p e [] = refl
count_if-split p e (x ∷ xs) = ground (arith, count_if-split p e xs)

count_if-false : (xs : List Message) → count_if (λ x. false) xs ≡ 0
unfolding count_if
count_if-false [] = refl
count_if-false (x ∷ xs) = omega (arith, count_if-false xs)

-- The rest of a batch has other ids than its first row.
others :
    (x : Message) (b : List Message)
    → count_if (is_message x.id) (x ∷ b) ≤ 1
    → (m : Message) → (x.id == m.id) ≡ true
    → in_batch b m.id ≡ false
unfolding count_if
others x b unique m t = elim (Bool-cases (any_row (is_message x.id) b)) [
  | inl e ↦
      let here : is_message x.id x ≡ true = ground arith in
      ground (arith, any_row-pos (is_message x.id) b e, rw here at unique)
  | inr e ↦ let same : x.id ≡ m.id = ground (arith, t) in subst (λ i. in_batch b i ≡ false) same e
]

module _ (e : Message → Bool) (ms : List Message) where
  row_once :
      (x : Message)
      → Keyed ms
      → IsRow e ms x
      → (count_if (λ m. x.id == m.id && e m) ms ≡ 1)
        × (count_if (λ m. x.id == m.id && not (e m)) ms ≡ 0)
  row_once x keyed there =
      let one = count_if_mono (λ m. x.id == m.id) (is_message x.id) ms (λ m t. ground (arith, t)) in
      let parts = count_if-split (λ m. x.id == m.id) e ms in
      (omega (arith, one, parts, there, keyed x.id), omega (arith, one, parts, there, keyed x.id))

  -- A batch of unique rows that pass a test has each once.
  pub batch-count :
      (b : List Message)
      → Keyed ms
      → Keyed b
      → All (IsRow e ms) b
      → (count_if (λ m. in_batch b m.id && e m) ms ≡ length b)
        × (count_if (λ m. in_batch b m.id && not (e m)) ms ≡ 0)
  unfolding count_if
  batch-count [] keyed unique rows = (count_if-false ms, count_if-false ms)
  batch-count (x ∷ b) keyed unique rows =
      let (pass, fail) = row_once x keyed rows.0 in
      let apart = others x b (unique x.id) in
      let (passes, fails) = batch-count b keyed (λ i. omega (arith, unique i)) rows.1 in
      (
        count_if-apart (λ m. x.id == m.id) (λ m. in_batch b m.id) e ms apart
            ∙ omega (arith, pass, passes),
        count_if-apart (λ m. x.id == m.id) (λ m. in_batch b m.id) (λ m. not (e m)) ms apart
            ∙ omega (arith, fail, fails),
      )

module _ (b : List Message) where
  -- A test that does not look at what is quoted.
  pub delete_rows-count :
      (q : Message → Bool) (ms : List Message)
      → ((m : Message) → q (unquoted b m) ≡ q m)
      → count_if q (delete_rows b ms) + count_if (λ m. in_batch b m.id && q m) ms ≡ count_if q ms
  unfolding count_if delete_rows
  delete_rows-count q [] same = refl
  delete_rows-count q (m ∷ ms) same = ground (arith, same m, delete_rows-count q ms same)

  pub delete_rows-Keyed : (ms : List Message) → Keyed ms → Keyed (delete_rows b ms)
  delete_rows-Keyed ms keyed i =
      omega (arith, keyed i, delete_rows-count (is_message i) ms (λ m. refl))

-- What a message is but for what it quotes.
abbrev pub bare : Message → Message
bare m = record m { reply_to_id = none }

-- The rows that fail the test stay, where the batch has none of them.
pub delete_rows-keeps :
    (b : List Message) (e : Message → Bool) (ms : List Message)
    → ((m : Message) → e (unquoted b m) ≡ e m)
    → count_if (λ m. in_batch b m.id && not (e m)) ms ≡ 0
    → map bare (filter_rows (λ m. not (e m)) (delete_rows b ms))
      ≡ map bare (filter_rows (λ m. not (e m)) ms)
unfolding count_if delete_rows filter_rows
delete_rows-keeps b e [] same none_kept = refl
delete_rows-keeps b e (m ∷ ms) same none_kept =
    let rest = delete_rows-keeps b e ms same (omega (arith, none_kept)) in
    elim (Bool-cases (e m)) [
      | inl t ↦ elim (Bool-cases (in_batch b m.id)) [
        | inl h ↦ rw (h, t) rest
        | inr h ↦ let kept : e (unquoted b m) ≡ true = same m ∙ t in rw (h, t, kept) rest
      ]
      | inr t ↦ elim (Bool-cases (in_batch b m.id)) [
        | inl h ↦ ground (arith, rw (h, t) at none_kept)
        | inr h ↦
            let kept : e (unquoted b m) ≡ false = same m ∙ t in
            rw (h, t, kept) (ap (λ r. bare m ∷ r) rest)
      ]
    ]
