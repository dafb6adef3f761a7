-- ===== src/RateLimit/Parity.antt =====
-- Buckets that nobody can tell apart after pruning.
use lc_connect.Base.{
  get, put, get-put_other, get-put_eq, get-delete, ℕ, ◌+◌, ◌-◌, ◌*◌, ◌≤◌, ◌≡◌, refl, sym, ap, ◌∙◌,
  Bool, true, some, List, [], ◌∷◌, arith, ◌==◌, Bool-cases, inl, inr,
}
use lc_connect.RateLimit.Buckets.{
  Bucket, RateLimiter, refill, spend, allow, prune, prune_buckets, is_stale,
}
use lc_connect.RateLimit.Balance.{InOrder}

-- The answers to a sequence of calls.
unfoldable pub answers : List (ℕ × ℕ × ℕ) → RateLimiter → List Bool
answers [] l = []
answers ((now, key, cost) ∷ calls) l =
    (allow now key cost l).0 ∷ answers calls (allow now key cost l).1

-- Two stores of buckets that refill alike from a time on.
abbrev pub Alike : ℕ → ℕ → ℕ → List (ℕ × Bucket) → List (ℕ × Bucket) → Type 0
Alike capacity per t m n =
    (k u : ℕ) → t ≤ u → refill capacity per u (get k m) ≡ refill capacity per u (get k n)

-- A bucket that was idle for the whole period is full.
idle_full :
    (capacity per u : ℕ) (b : Bucket)
    → b.last + per ≤ u
    → refill capacity per u (some b) ≡ capacity * per
unfolding refill
idle_full capacity per u b h = ground (arith, full_again capacity per u b.last b.tokens h)
  where
    full_again :
        (capacity per u last x : ℕ) → last + per ≤ u → capacity * per ≤ x + (u - last) * capacity
    full_again capacity per u last x h = grind arith

prune_buckets-Alike :
    (capacity per now idle : ℕ) (m : List (ℕ × Bucket))
    → per ≤ idle
    → Alike capacity per now (prune_buckets now idle m) m
unfolding prune_buckets get refill
prune_buckets-Alike capacity per now idle [] h k u le = refl
prune_buckets-Alike capacity per now idle ((j, b) ∷ m) h k u le =
    elim (Bool-cases (is_stale now idle b)) [
      | inl e ↦ elim (Bool-cases (j == k)) [
        | inl f ↦
            rw (e, get-delete j k (prune_buckets now idle m), f)
              (sym (idle_full capacity per u b (gone e)))
        | inr f ↦
            rw (e, get-delete j k (prune_buckets now idle m), f)
              (prune_buckets-Alike capacity per now idle m h k u le)
      ]
      | inr e ↦ elim (Bool-cases (j == k)) [
        | inl f ↦ rw (e, f) refl
        | inr f ↦ rw (e, f) (prune_buckets-Alike capacity per now idle m h k u le)
      ]
    ]
  where
    gone : is_stale now idle b ≡ true → b.last + per ≤ u
    gone e = ground arith

-- The same bucket is put under the same key.
put-Alike :
    (capacity per t key : ℕ) (b : Bucket) (m n : List (ℕ × Bucket))
    → Alike capacity per t m n
    → Alike capacity per t (put key b m) (put key b n)
put-Alike capacity per t key b m n h k u le = elim (Bool-cases (key == k)) [
  | inl e ↦ ap (refill capacity per u) (get-put_eq key k b m e ∙ sym (get-put_eq key k b n e))
  | inr e ↦ rw (get-put_other key k b m e, get-put_other key k b n e) (h k u le)
]

abbrev limiter : ℕ → ℕ → List (ℕ × Bucket) → RateLimiter
limiter capacity per m = record { capacity = capacity; per = per; buckets = m }

later-Alike :
    (capacity per t u : ℕ) (m n : List (ℕ × Bucket))
    → t ≤ u
    → Alike capacity per t m n
    → Alike capacity per u m n
later-Alike capacity per t u m n le h k v le' = h k v (omega arith)

answers-Alike :
    (capacity per t end : ℕ) (calls : List (ℕ × ℕ × ℕ)) (m n : List (ℕ × Bucket))
    → Alike capacity per t m n
    → InOrder t end calls
    → answers calls (limiter capacity per m) ≡ answers calls (limiter capacity per n)
unfolding answers allow
answers-Alike capacity per t end [] m n h order = refl
answers-Alike capacity per t end ((now, key, cost) ∷ calls) m n h order =
    let x = refill capacity per now (get key n) in
    let s = spend x (cost * per) now in
    rw (h key now order.0) (
      ap (λ rest. s.0 ∷ rest)
        (answers-Alike capacity per now end calls (put key s.1 m) (put key s.1 n)
          (put-Alike capacity per now key s.1 m n (later-Alike capacity per t now m n order.0 h))
          order.1))

-- Pruning buckets that were idle for at least the limiter's period is not seen by any later calls:
-- each is answered as it would be with the buckets kept.
pub prune-answers :
    (now idle end : ℕ) (calls : List (ℕ × ℕ × ℕ)) (l : RateLimiter)
    → l.per ≤ idle
    → InOrder now end calls
    → answers calls (prune now idle l).1 ≡ answers calls l
unfolding prune
prune-answers now idle end calls l h order =
    answers-Alike l.capacity l.per now end calls (prune_buckets now idle l.buckets) l.buckets
      (prune_buckets-Alike l.capacity l.per now idle l.buckets h) order
