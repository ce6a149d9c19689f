-- ===== src/Common.antt =====
-- The names that the modules share: those of the libraries, passed on, Boolean tests on the native
-- numbers, and lists measured and cut by them. Dictionaries, texts and sorting are child modules.
mod Tests
mod Lists
pub mod Eq
pub mod Text
pub mod Dict
pub mod Sorting
pub mod Subsequence
pub mod Result
pub mod Int
pub mod Last
pub mod Time
pub mod Value
pub use Tests.*
pub use Lists.*
pub use Prim.Native.Nat.{ℕ, zero, suc, ◌+◌, ◌-◌, ◌*◌, ◌/◌, ◌%◌, ◌≤◌, ◌<◌}
pub use Prim.Native.String.{String}
pub use mathlib.Core.Path.{◌≡◌, refl, sym, ap, ◌∙◌}
pub use mathlib.Core.Logic.{◌≢◌, ◌↔◌, ◌⊎◌, inl, inr}
pub use mathlib.Core.Bool.{Bool, true, false, not, ◌&&◌, ◌||◌}
pub use mathlib.Core.Option.{Option, none, some}
pub use mathlib.Core.List.{List, [], ◌∷◌, ◌++◌, map, append-nil, append_assoc}
pub use native.Mathlib.Omega.{arith}
