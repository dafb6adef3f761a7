-- ===== src/Social/Tests.antt =====
-- Inputs for the relationship policies.
use lc_connect.Base.{ℕ, ◌≡◌, ◌≤◌, List, [], ◌∷◌, arith, err, count_if, filter_rows, find?}
use lc_connect.Social.{Block, is_block, users_are_blocked}
use lc_connect.Social.Blocks.{users_are_blocked-verdict}

-- Each of two people has blocked the other.
abbrev both_ways : List Block
both_ways =
    record { blocker_id = 1; blocked_id = 2 } ∷ record { blocker_id = 2; blocked_id = 1 } ∷ []

both_ways-IsUnique : (a b : ℕ) → count_if (is_block a b) both_ways ≤ 1
unfolding count_if
both_ways-IsUnique a b = ground arith

users_are_blocked-verdict_example : users_are_blocked {E = ℕ} 500 both_ways 1 2 ≡ err 500
unfolding users_are_blocked filter_rows find?
users_are_blocked-verdict_example =
    users_are_blocked-verdict 500 both_ways 1 2 (λ e. cc) both_ways-IsUnique
