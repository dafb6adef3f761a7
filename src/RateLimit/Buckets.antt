-- ===== src/RateLimit/Buckets.antt =====
-- `RateLimiter` of backend/app/shared/rate_limit.py, the limiter in the process.
-- Tokens are counted in exact units of 1 / `per`, where the program has floats: a bucket of
-- `capacity` tokens holds `capacity * per` units, and `capacity` units come back in each tick of
-- the clock, which is monotonic.
use lc_connect.Base.{
  ℕ, ◌+◌, ◌-◌, ◌*◌, Bool, true, false, ◌||◌, Option, none, some, List, [], ◌∷◌, ◌==◌, ltb, leb,
  if◌then◌else◌, min, Text, strip, get, put, delete,
}

pub record Bucket : Type 0 where
  pub tokens : ℕ
  pub last : ℕ

pub record RateLimiter : Type 0 where
  pub capacity : ℕ
  pub per : ℕ
  pub buckets : List (ℕ × Bucket)

-- `__init__`: none for the `ValueError`.
abbrev pub make : ℕ → ℕ → Option RateLimiter
make capacity per =
    if capacity == 0 || per == 0
    then none
    else some (record { capacity = capacity; per = per; buckets = [] })

-- The tokens of a bucket at a time, refilled and capped.
unfoldable pub refill : ℕ → ℕ → ℕ → Option Bucket → ℕ
refill capacity per now none = capacity * per
refill capacity per now (some b) = min (capacity * per) (b.tokens + (now - b.last) * capacity)

abbrev pub spend : ℕ → ℕ → ℕ → Bool × Bucket
spend tokens cost now =
    if leb cost tokens
    then (true, record { tokens = tokens - cost; last = now })
    else (false, record { tokens = tokens; last = now })

unfoldable pub allow : ℕ → ℕ → ℕ → RateLimiter → Bool × RateLimiter
allow now key cost l =
    let s = spend (refill l.capacity l.per now (get key l.buckets)) (cost * l.per) now in
    (s.0, record l { buckets = put key s.1 l.buckets })

unfoldable pub discard : ℕ → RateLimiter → RateLimiter
discard key l = record l { buckets = delete key l.buckets }

-- `last < now - idle_seconds`
abbrev pub is_stale : ℕ → ℕ → Bucket → Bool
is_stale now idle b = ltb (b.last + idle) now

-- Deletes each stale key.
unfoldable pub prune_buckets : ℕ → ℕ → List (ℕ × Bucket) → List (ℕ × Bucket)
prune_buckets now idle [] = []
prune_buckets now idle ((k, b) ∷ m) =
    let rest = prune_buckets now idle m in
    if is_stale now idle b then delete k rest else (k, b) ∷ rest

unfoldable pub count_stale : ℕ → ℕ → List (ℕ × Bucket) → ℕ
count_stale now idle [] = 0
count_stale now idle ((k, b) ∷ m) =
    let rest = count_stale now idle m in if is_stale now idle b then rest + 1 else rest

unfoldable pub prune : ℕ → ℕ → RateLimiter → ℕ × RateLimiter
prune now idle l =
    (count_stale now idle l.buckets, record l { buckets = prune_buckets now idle l.buckets })

-- `client_ip`: the first hop of the header, else the peer of the socket.
abbrev pub first_hop : Text → Text
first_hop [] = []
first_hop (c ∷ s) = let rest = first_hop s in if c == 44 then [] else c ∷ rest

abbrev pub peer_or_unknown : Option Text → Text
peer_or_unknown none = 117 ∷ 110 ∷ 107 ∷ 110 ∷ 111 ∷ 119 ∷ 110 ∷ []
peer_or_unknown (some host) = host

abbrev pub nonblank : Text → Text → Text
nonblank [] other = other
nonblank (c ∷ s) other = c ∷ s

unfoldable pub client_ip : Text → Option Text → Text
client_ip forwarded peer = nonblank (strip (first_hop forwarded)) (peer_or_unknown peer)
