-- ===== src/Groups/Policies.antt =====
-- backend/app/features/groups/policies.py. A rank is one more than in `ROLE_RANK`, so that 0 stands
-- for the default -1 of an unknown role.
use lc_connect.Base.{ℕ, Bool, true, false, Option, none, some, ltb, leb, if◌then◌else◌}
use lc_connect.Groups.Defs.{Role, member, admin, owner, other}

pub data GroupAction : Type 0 where
  send_message invite approve_request remove_member ban_member edit_group delete_group : GroupAction
  transfer_ownership : GroupAction

-- `ROLE_RANK.get(role, -1)`
abbrev pub rank : Role → ℕ
rank member = 1
rank admin = 2
rank owner = 3
rank other = 0

-- `ROLE_RANK.get(target_role, 99)`
abbrev pub target_rank : Role → ℕ
target_rank other = 100
target_rank r = rank r

-- `_MIN_ROLE`
abbrev pub min_role : GroupAction → Role
min_role send_message = member
min_role delete_group = owner
min_role transfer_ownership = owner
min_role _ = admin

unfoldable pub can : Option Role → GroupAction → Bool
can none action = false
can (some role) action = leb (rank (min_role action)) (rank role)

abbrev pub is_owner_role : Role → Bool
is_owner_role owner = true
is_owner_role _ = false

unfoldable pub can_moderate : Option Role → Role → Bool
can_moderate none target = false
can_moderate (some actor) target =
    if is_owner_role target then false else ltb (target_rank target) (rank actor)
