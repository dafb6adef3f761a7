-- ===== src/Base/Changes.antt =====
-- The fields of a partial update (`model_dump(exclude_unset=True)`).
use mathlib.Core.Option.{Option, none, some}

-- A field is absent, `null`, or a value.
pub data Change (A : Type 0) : Type 0 where
  unset null : Change A
  set : A → Change A

-- A column that may be null.
abbrev pub change_nullable : {A : Type 0} → Change A → Option A → Option A
change_nullable unset old = old
change_nullable null old = none
change_nullable (set a) old = some a
