-- ===== src/RateLimit/Balance.antt =====
-- How much a key may spend.
use lc_connect.Base.{
  get, put, get-put_self, get-put_other, ℕ, ◌+◌, ◌-◌, ◌*◌, ◌≤◌, ◌≡◌, ◌≢◌, refl, sym, subst, ap, ◌∙◌,
  ◌&&◌, Bool, false, Option, none, some, List, [], ◌∷◌, arith, ◌==◌, leb, Bool-cases, inl, inr,
  ℕ_discrete, weight,
}
use lc_connect.RateLimit.Buckets.{Bucket, RateLimiter, refill, spend, allow, make}

-- The units that a key could spend at a time.
unfoldable pub balance : ℕ → ℕ → RateLimiter → ℕ
balance now key l = refill l.capacity l.per now (get key l.buckets)

-- No bucket was touched after a time.
abbrev pub TouchedBy : ℕ → RateLimiter → Type 0
TouchedBy t l = (k : ℕ) (b : Bucket) → get k l.buckets ≡ some b → b.last ≤ t

split_time : (l t u c : ℕ) → l ≤ t → t ≤ u → (u - l) * c ≡ (t - l) * c + (u - t) * c
split_time l t u c h k = grind arith

refill_rate :
    (c per t u : ℕ) (b : Bucket)
    → b.last ≤ t
    → t ≤ u
    → refill c per u (some b) ≤ refill c per t (some b) + (u - t) * c
unfolding refill
refill_rate c per t u b h k = ground (arith, split_time b.last t u c h k)

refill_rate_any :
    (c per t u : ℕ) (o : Option Bucket)
    → ((b : Bucket) → o ≡ some b → b.last ≤ t)
    → t ≤ u
    → refill c per u o ≤ refill c per t o + (u - t) * c
unfolding refill
refill_rate_any c per t u none h k = omega arith
refill_rate_any c per t u (some b) h k = refill_rate c per t u b (h b refl) k

balance_rate :
    (t u key : ℕ) (l : RateLimiter)
    → TouchedBy t l
    → t ≤ u
    → balance u key l ≤ balance t key l + (u - t) * l.capacity
unfolding balance
balance_rate t u key l touched h =
    refill_rate_any l.capacity l.per t u (get key l.buckets) (touched key) h

-- A call spends what it grants.
spent_units :
    (c per now x y : ℕ)
    → refill c per now (some (spend x y now).1) + weight (spend x y now).0 * y ≤ x
unfolding refill
spent_units c per now x y = elim (Bool-cases (leb y x)) [
  | inl e ↦ ground (arith, e)
  | inr e ↦ ground (arith, e)
]

balance-allow_self :
    (now key cost : ℕ) (l : RateLimiter)
    → balance now key (allow now key cost l).1 + weight (allow now key cost l).0 * (cost * l.per)
      ≤ balance now key l
unfolding balance allow
balance-allow_self now key cost l =
    let x = refill l.capacity l.per now (get key l.buckets) in
    rw (get-put_self key (spend x (cost * l.per) now).1 l.buckets)
      (spent_units l.capacity l.per now x (cost * l.per))

-- A call for one key leaves the others alone.
balance-allow_other :
    (now t key i cost : ℕ) (l : RateLimiter)
    → (key == i) ≡ false
    → balance t i (allow now key cost l).1 ≡ balance t i l
unfolding balance allow
balance-allow_other now t key i cost l ne =
    ap (refill l.capacity l.per t) (get-put_other key i _ l.buckets ne)

pub spend-last : (x y now : ℕ) → (spend x y now).1.last ≡ now
spend-last x y now = ground arith

some-inj {ℓ} : {A : Type ℓ} {a b : A} → ◌≡◌ {A = Option A} (some a) (some b) → a ≡ b
some-inj h = cc

pub allow-TouchedBy :
    (now t key cost : ℕ) (l : RateLimiter)
    → t ≤ now
    → TouchedBy t l
    → TouchedBy now (allow now key cost l).1
unfolding allow
allow-TouchedBy now t key cost l h touched i b found =
    let x = refill l.capacity l.per now (get key l.buckets) in
    let new = (spend x (cost * l.per) now).1 in
    elim (ℕ_discrete key i) [
      | yes e ↦
          let p = some-inj (
            sym (get-put_self key new l.buckets)
            ∙ ap (λ k. get k (put key new l.buckets)) e
            ∙ found) in
          omega (arith, spend-last x (cost * l.per) now, ap (λ r. r.last) p)
      | no ne ↦
          omega
            (arith, touched i b (sym (get-put_other key i new l.buckets (ground arith)) ∙ found))
    ]

-- The times of calls do not go back, and end by a time.
abbrev pub InOrder : ℕ → ℕ → List (ℕ × ℕ × ℕ) → Type 0
InOrder t end [] = t ≤ end
InOrder t end ((now, key, cost) ∷ calls) = (t ≤ now) × InOrder now end calls

-- What the limiter grants to a key in a sequence of calls: a time, a key and a cost each.
unfoldable pub granted : ℕ → List (ℕ × ℕ × ℕ) → RateLimiter → ℕ
granted i [] l = 0
granted i ((now, key, cost) ∷ calls) l =
    weight ((allow now key cost l).0 && key == i) * cost + granted i calls (allow now key cost l).1

InOrder-le : (t end : ℕ) (calls : List (ℕ × ℕ × ℕ)) → InOrder t end calls → t ≤ end
InOrder-le t end [] h = h
InOrder-le t end ((now, key, cost) ∷ calls) h = omega (arith, h.0, InOrder-le now end calls h.1)

same_key : (key : ℕ) (b : Bool) → weight (b && key == key) ≡ weight b
same_key key b = ground arith

other_key : (key i : ℕ) (b : Bool) → key ≢ i → weight (b && key == i) ≡ 0
other_key key i b ne = ground arith

-- What a call takes from the balance of a key, its own or another.
paid :
    (i now key cost : ℕ) (l : RateLimiter)
    → balance now i (allow now key cost l).1
        + weight ((allow now key cost l).0 && key == i) * (cost * l.per)
      ≤ balance now i l
paid i now key cost l = elim (ℕ_discrete key i) [
  | yes e ↦
      subst
        (λ j.
          balance now j (allow now key cost l).1
            + weight ((allow now key cost l).0 && key == j) * (cost * l.per)
          ≤ balance now j l)
        e (rw (same_key key (allow now key cost l).0) (balance-allow_self now key cost l))
  | no ne ↦
      rw
        (
          other_key key i (allow now key cost l).0 ne,
          balance-allow_other now now key i cost l (ground arith),
        )
        (omega arith)
]

one_call :
    (w cost rest per b0 b1 b2 whole before after : ℕ)
    → b2 + w * (cost * per) ≤ b1
    → b1 ≤ b0 + before
    → whole ≡ before + after
    → rest * per ≤ b2 + after
    → (w * cost + rest) * per ≤ b0 + whole
one_call w cost rest per b0 b1 b2 whole before after h1 h2 h3 h4 = grind arith

granted-balance :
    (i t end : ℕ) (calls : List (ℕ × ℕ × ℕ)) (l : RateLimiter)
    → TouchedBy t l
    → InOrder t end calls
    → granted i calls l * l.per ≤ balance t i l + (end - t) * l.capacity
unfolding granted allow
granted-balance i t end [] l touched order = omega arith
granted-balance i t end ((now, key, cost) ∷ calls) l touched order =
    one_call (weight ((allow now key cost l).0 && key == i)) cost
      (granted i calls (allow now key cost l).1) l.per (balance t i l) (balance now i l)
      (balance now i (allow now key cost l).1) ((end - t) * l.capacity) ((now - t) * l.capacity)
      ((end - now) * l.capacity) (paid i now key cost l) (balance_rate t now i l touched order.0)
      (split_time t now end l.capacity order.0 (InOrder-le now end calls order.1))
      (granted-balance i now end calls (allow now key cost l).1
        (allow-TouchedBy now t key cost l order.0 touched) order.1)

pub made_fresh :
    (capacity per : ℕ) {l : RateLimiter}
    → make capacity per ≡ some l
    → record { capacity = capacity; per = per; buckets = [] } ≡ l
made_fresh capacity per h = ground arith

fresh_bound :
    (capacity per i start end : ℕ) (calls : List (ℕ × ℕ × ℕ)) (l : RateLimiter)
    → record { capacity = capacity; per = per; buckets = [] } ≡ l
    → InOrder start end calls
    → granted i calls l * per ≤ capacity * (per + (end - start))
unfolding balance refill get
fresh_bound capacity per i start end calls l made order =
    subst (λ l. granted i calls l * per ≤ capacity * (per + (end - start))) made
      (grind (
        arith,
        granted-balance i start end calls (record { capacity = capacity; per = per; buckets = [] })
            (λ k b h. cc) order,
      ))

-- In any sequence of calls, for whatever keys and at times that do not go back, a new limiter
-- grants one key at most its capacity and what comes back in the time that passes:
-- `capacity * (1 + elapsed / per)`, the division cleared.
pub granted_bound :
    (capacity per i start end : ℕ) (calls : List (ℕ × ℕ × ℕ)) {l : RateLimiter}
    → make capacity per ≡ some l
    → InOrder start end calls
    → granted i calls l * per ≤ capacity * (per + (end - start))
granted_bound capacity per i start end calls {l} made order =
    fresh_bound capacity per i start end calls l (made_fresh capacity per made) order
