-- ===== src/RateLimit/Tests.antt =====
-- Two calls in sixty ticks, for two keys.
use lc_connect.Base.{
  get, put, ℕ, ◌+◌, ◌-◌, ◌*◌, ◌≤◌, ◌≡◌, refl, true, false, some, List, [], ◌∷◌, arith, strip,
}
use lc_connect.RateLimit.Buckets.{RateLimiter, allow, refill, prune, client_ip}
use lc_connect.RateLimit.Balance.{granted, granted_bound}
use lc_connect.RateLimit.Parity.{answers, prune-answers}

abbrev two_a_minute : RateLimiter
two_a_minute = record { capacity = 2; per = 60; buckets = [] }

abbrev calls : List (ℕ × ℕ × ℕ)
calls = (0, 7, 1) ∷ (1, 7, 1) ∷ (2, 7, 1) ∷ (3, 8, 1) ∷ (40, 7, 1) ∷ []

answers-calls : answers calls two_a_minute ≡ true ∷ true ∷ false ∷ true ∷ true ∷ []
unfolding answers allow refill get put
answers-calls = refl

granted_bound_example : granted 7 calls two_a_minute * 60 ≤ 2 * (60 + (50 - 0))
granted_bound_example = granted_bound 2 60 7 0 50 calls {l = two_a_minute} refl (omega arith)

abbrev stale : RateLimiter
stale = record two_a_minute { buckets = (7, record { tokens = 3; last = 0 }) ∷ [] }

abbrev late : List (ℕ × ℕ × ℕ)
late = (100, 7, 1) ∷ (100, 7, 1) ∷ (100, 7, 1) ∷ []

prune-answers_example : answers late (prune 90 60 stale).1 ≡ true ∷ true ∷ false ∷ []
unfolding answers allow refill get put
prune-answers_example = prune-answers 90 60 100 late stale (omega arith) (omega arith)

-- "1.2, 9" behind a proxy.
client_ip_first : client_ip (49 ∷ 46 ∷ 50 ∷ 44 ∷ 32 ∷ 57 ∷ []) (some (56 ∷ [])) ≡ 49 ∷ 46 ∷ 50 ∷ []
unfolding client_ip strip
client_ip_first = refl
