-- ===== src/Base.antt =====
-- The names that every module of the development shares: those of the libraries, passed on, and
-- those of the children (tests on numbers, lists, bit ranges, streams).
mod Tests
mod Lists
mod Bits
mod Streams
mod Loop
pub use Tests.*
pub use Lists.*
pub use Bits.*
pub use Streams.*
unfoldable pub use Loop.{while_read}
pub use Loop.{Outcome, done, blocked, out_of_fuel, outcome_map, while_read_stop, while_read_next}
pub use Prim.Native.Nat.{ℕ, zero, suc, ◌+◌, ◌-◌, ◌*◌, ◌/◌, ◌%◌, ◌^◌, ◌≤◌, ◌<◌}
pub use mathlib.Core.Path.{◌≡◌, refl, sym, ap, ◌∙◌}
pub use mathlib.Core.Logic.{◌≢◌, ◌⊎◌, inl, inr}
pub use mathlib.Core.Bool.{Bool, true, false, ◌&&◌, ◌||◌, not}
pub use mathlib.Core.Option.{Option, none, some}
pub use mathlib.Core.List.{List, [], ◌∷◌, ◌++◌, map, append-nil, append_assoc}
pub use native.Mathlib.Omega.{arith}
