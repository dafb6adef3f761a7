-- ===== src/Messages/Batches.antt =====
-- One batch of the purge of backend/app/shared/message_retention.py: it is made of rows to purge, and
-- its deletion takes those rows and no other.
use lc_connect.Base.{
  ℕ, zero, suc, ◌≡◌, ◌≤◌, ◌+◌, ◌∙◌, refl, sym, ap, Bool, true, ◌&&◌, List, [], ◌∷◌, ◌==◌, leb,
  filter_rows, count_if, weight, All, inl, inr, Bool-cases, arith,
}
use lc_connect.Messages.Defs.{Message, is_message}
use lc_connect.Messages.Cursors.{Keyed}
use lc_connect.Messages.Retention.{
  is_eligible, time_of, insert_by_time, order_by_time, limit, batch,
}

count_if-insert_by_time :
    (q : Message → Bool) (m : Message) (xs : List Message)
    → count_if q (insert_by_time m xs) ≡ weight (q m) + count_if q xs
unfolding count_if
count_if-insert_by_time q m [] = refl
count_if-insert_by_time q m (x ∷ xs) =
    elim (Bool-cases (leb (time_of m.deleted_at) (time_of x.deleted_at))) [
      | inl e ↦ rw e refl
      | inr e ↦ rw e (omega (arith, count_if-insert_by_time q m xs))
    ]

count_if-order_by_time :
    (q : Message → Bool) (xs : List Message) → count_if q (order_by_time xs) ≡ count_if q xs
unfolding count_if
count_if-order_by_time q [] = refl
count_if-order_by_time q (x ∷ xs) =
    count_if-insert_by_time q x (order_by_time xs)
    ∙ ap (λ n. weight (q x) + n) (count_if-order_by_time q xs)

count_if-limit :
    (n : ℕ) (q : Message → Bool) (xs : List Message) → count_if q (limit n xs) ≤ count_if q xs
unfolding count_if
count_if-limit zero q xs = omega arith
count_if-limit (suc n) q [] = omega arith
count_if-limit (suc n) q (x ∷ xs) = omega (arith, count_if-limit n q xs)

count_if-filter_rows :
    (p q : Message → Bool) (xs : List Message) → count_if q (filter_rows p xs) ≤ count_if q xs
unfolding count_if filter_rows
count_if-filter_rows p q [] = omega arith
count_if-filter_rows p q (x ∷ xs) = ground (arith, count_if-filter_rows p q xs)

-- The ids of a batch are unique.
pub batch-Keyed : (size cutoff : ℕ) (ms : List Message) → Keyed ms → Keyed (batch size cutoff ms)
unfolding batch
batch-Keyed size cutoff ms keyed i =
    let rows = filter_rows (is_eligible cutoff) ms in
    omega (
      arith,
      keyed i,
      count_if-filter_rows (is_eligible cutoff) (is_message i) ms,
      count_if-order_by_time (is_message i) rows,
      count_if-limit size (is_message i) (order_by_time rows),
    )

module _ (P : Message → Type 0) where
  insert_by_time-All :
      (m : Message) (xs : List Message) → P m → All P xs → All P (insert_by_time m xs)
  insert_by_time-All m [] h t = (h, tt)
  insert_by_time-All m (x ∷ xs) h t =
      elim (Bool-cases (leb (time_of m.deleted_at) (time_of x.deleted_at))) [
        | inl e ↦ rw e (h, t)
        | inr e ↦ rw e (t.0, insert_by_time-All m xs h t.1)
      ]

  order_by_time-All : (xs : List Message) → All P xs → All P (order_by_time xs)
  order_by_time-All [] t = tt
  order_by_time-All (x ∷ xs) t =
      insert_by_time-All x (order_by_time xs) t.0 (order_by_time-All xs t.1)

  limit-All : (n : ℕ) (xs : List Message) → All P xs → All P (limit n xs)
  limit-All zero xs t = tt
  limit-All (suc n) [] t = tt
  limit-All (suc n) (x ∷ xs) t = (t.0, limit-All n xs t.1)

-- A row that is to be purged, and is there.
abbrev pub IsRow : (Message → Bool) → List Message → Message → Type 0
IsRow e ms x = 1 ≤ count_if (λ m. x.id == m.id && e m) ms

filter_rows-IsRow :
    (e : Message → Bool) (ms ns : List Message)
    → ((q : Message → Bool) → count_if q ms ≤ count_if q ns)
    → All (IsRow e ns) (filter_rows e ms)
unfolding filter_rows count_if
filter_rows-IsRow e [] ns more = tt
filter_rows-IsRow e (m ∷ ms) ns more =
    let less : (q : Message → Bool) → count_if q ms ≤ count_if q ns = λ q. omega (arith, more q) in
    elim (Bool-cases (e m)) [
      | inl h ↦
          let here : (m.id == m.id && e m) ≡ true = ground (arith, h) in
          rw h (
            omega (arith, rw here at (more (λ x. m.id == x.id && e x))),
            filter_rows-IsRow e ms ns less,
          )
      | inr h ↦ rw h (filter_rows-IsRow e ms ns less)
    ]

pub batch-IsRow :
    (size cutoff : ℕ) (ms : List Message)
    → All (IsRow (is_eligible cutoff) ms) (batch size cutoff ms)
unfolding batch
batch-IsRow size cutoff ms =
    let rows = filter_rows (is_eligible cutoff) ms in
    limit-All (IsRow (is_eligible cutoff) ms) size (order_by_time rows) (
      order_by_time-All (IsRow (is_eligible cutoff) ms) rows
        (filter_rows-IsRow (is_eligible cutoff) ms ms (λ q. omega arith)))

count_if-filter_self :
    (p : Message → Bool) (xs : List Message) → count_if p (filter_rows p xs) ≡ count_if p xs
unfolding count_if filter_rows
count_if-filter_self p [] = refl
count_if-filter_self p (x ∷ xs) = ground (arith, count_if-filter_self p xs)

limit-none :
    (n : ℕ) (q : Message → Bool) (xs : List Message) → 1 ≤ n → limit n xs ≡ [] → count_if q xs ≡ 0
unfolding count_if
limit-none zero q xs pos h = ground arith
limit-none (suc n) q [] pos h = refl
limit-none (suc n) q (x ∷ xs) pos h = cc

-- A batch is empty only where there is nothing to purge.
pub batch-none :
    (size cutoff : ℕ) (ms : List Message)
    → 1 ≤ size
    → batch size cutoff ms ≡ []
    → count_if (is_eligible cutoff) ms ≡ 0
unfolding batch
batch-none size cutoff ms pos h =
    let rows = filter_rows (is_eligible cutoff) ms in
    sym (count_if-filter_self (is_eligible cutoff) ms)
    ∙ sym (count_if-order_by_time (is_eligible cutoff) rows)
    ∙ limit-none size (is_eligible cutoff) (order_by_time rows) pos h
