-- ===== src/Base.antt =====
-- Names that every component shares: those of the libraries, passed on, and those of the children.
mod Tests
mod Results
mod Table
mod Texts
mod Changes
mod Dicts
unfoldable pub use Tests.*
unfoldable pub use Results.*
unfoldable pub use Table.*
unfoldable pub use Texts.*
unfoldable pub use Changes.*
unfoldable pub use Dicts.*
pub use Prim.Native.Nat.{ℕ, zero, suc, ◌+◌, ◌-◌, ◌*◌, ◌/◌, ◌≤◌, ◌<◌, min}
pub use mathlib.Core.Path.{◌≡◌, refl, sym, ap, subst, ◌∙◌}
pub use mathlib.Core.Logic.{◌≢◌, ◌↔◌, ◌⊎◌, inl, inr}
pub use mathlib.Core.Bool.{Bool, true, false, not, ◌&&◌, ◌||◌}
pub use mathlib.Core.Option.{Option, none, some}
pub use mathlib.Core.List.{List, [], ◌∷◌, ◌++◌, map}
pub use native.Mathlib.Omega.{arith}
unfoldable pub use native.Mathlib.Decide.{ℕ_discrete}
