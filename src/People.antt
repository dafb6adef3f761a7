-- ===== src/People.antt =====
-- The columns of backend/app/models that several features read: accounts (core.py), campus positions
-- (campus.py), programs and their memberships (programs.py), with the queries that are shared
-- (campus_positions/service.py, shared/programs.py). Times count microseconds.
use lc_connect.Base.{
  ℕ, Bool, true, false, ◌&&◌, Option, List, ◌==◌, Text, Result, ok, ◌>>=◌, find?, is_some,
  filter_rows, scalar_one_or_none, text_eq, any_row,
}

pub data UserRole : Type 0 where
  student staff admin : UserRole

-- `is_open`: `users.status` is 'active'. `is_deleted`: `deleted_at` is set.
pub record User : Type 0 where
  pub id : ℕ
  pub role : UserRole
  pub is_active : Bool
  pub is_open : Bool
  pub is_verified : Bool
  pub is_deleted : Bool

-- `is_official`: the position's status is 'verified'.
pub record Position : Type 0 where
  pub user_id : ℕ
  pub is_primary : Bool
  pub is_active : Bool
  pub is_official : Bool

pub record Program : Type 0 where
  pub id : ℕ
  pub slug : Text
  pub is_active : Bool

-- `is_current`: the membership's status is 'active'.
pub record ProgramMembership : Type 0 where
  pub user_id : ℕ
  pub program_id : ℕ
  pub is_current : Bool

pub record Campus : Type 0 where
  pub positions : List Position
  pub programs : List Program
  pub memberships : List ProgramMembership

abbrev pub is_admin : UserRole → Bool
is_admin admin = true
is_admin _ = false

abbrev pub is_staff : UserRole → Bool
is_staff staff = true
is_staff _ = false

-- `get_primary_position`: a partial unique index leaves one row at most.
unfoldable pub get_primary_position : Campus → ℕ → Option Position
get_primary_position c user =
    find? (λ p. p.user_id == user && p.is_primary && p.is_active) c.positions

-- The join of a membership with its program, for one person and one slug.
abbrev pub holds_slug : Campus → ℕ → Text → ProgramMembership → Bool
holds_slug c user slug m =
    m.user_id == user
    && m.is_current
    && any_row (λ p. p.id == m.program_id && text_eq p.slug slug) c.programs

-- `is_active_program_member`, with the exception of `scalar_one_or_none`.
unfoldable pub is_active_program_member : {E : Type 0} → E → Campus → ℕ → Text → Result E Bool
is_active_program_member multiple c user slug = do
  row ← scalar_one_or_none multiple (filter_rows (holds_slug c user slug) c.memberships)
  ok (is_some row)
