-- ===== src/Social.antt =====
-- The tables of backend/app/models/social.py: connection requests, matches and blocks, and the
-- relationship policies of backend/app/shared/policies.py over them. A UUID is a number: it is
-- compared, and its canonical text sorts as its value does. A time is a number of microseconds.
use lc_connect.Base.{
  ℕ, Bool, true, false, ◌&&◌, ◌||◌, Option, none, some, List, ◌==◌, if◌then◌else◌, is_some, Result,
  ok, ◌>>=◌, filter_rows, scalar_one_or_none, find?, Text,
}
pub mod Blocks
mod Tests

pub data RequestStatus : Type 0 where
  pending accepted declined : RequestStatus

pub record ConnectionRequest : Type 0 where
  pub id : ℕ
  pub sender_id : ℕ
  pub receiver_id : ℕ
  pub intent : Option Text
  pub note : Option Text
  pub status : RequestStatus
  pub created_at : ℕ
  pub responded_at : Option ℕ

pub record Match : Type 0 where
  pub id : ℕ
  pub user_a_id : ℕ
  pub user_b_id : ℕ
  pub created_at : ℕ
  pub disconnected_at : Option ℕ

pub record Block : Type 0 where
  pub blocker_id : ℕ
  pub blocked_id : ℕ

abbrev pub is_pending : RequestStatus → Bool
is_pending pending = true
is_pending _ = false

abbrev pub is_block : ℕ → ℕ → Block → Bool
is_block a b row = row.blocker_id == a && row.blocked_id == b

-- `users_are_blocked`. The exception is that of `scalar_one_or_none` on two rows.
unfoldable pub users_are_blocked : {E : Type 0} → E → List Block → ℕ → ℕ → Result E Bool
users_are_blocked multiple blocks user_a user_b = do
  row ←
      scalar_one_or_none multiple
        (filter_rows (λ r. is_block user_a user_b r || is_block user_b user_a r) blocks)
  ok (is_some row)

-- The rows that `users_are_connected` selects: the pair in either order, not disconnected.
abbrev pub connects : ℕ → ℕ → Match → Bool
connects user_a user_b m =
    ((m.user_a_id == user_a && m.user_b_id == user_b)
      || (m.user_a_id == user_b && m.user_b_id == user_a))
    && not_ended m.disconnected_at
  where
    not_ended : Option ℕ → Bool
    not_ended none = true
    not_ended (some _) = false

unfoldable pub users_are_connected : {E : Type 0} → E → List Match → ℕ → ℕ → Result E Bool
users_are_connected multiple matches user_a user_b = do
  row ← scalar_one_or_none multiple (filter_rows (connects user_a user_b) matches)
  ok (is_some row)
