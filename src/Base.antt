-- ===== src/Base.antt =====
-- The names that the other modules share: those of the libraries, and the helpers of the modules
-- below. A byte string is a list of native numbers.
mod Tests
mod Lists
mod Bytes
mod Results
pub mod Actions
pub mod Order
pub mod Bits
pub use Tests.*
pub use Lists.*
pub use Bytes.*
pub use Results.*
pub use Prim.Native.Nat.{
  ℕ, zero, suc, ◌+◌, ◌-◌, ◌*◌, ◌/◌, ◌%◌, ◌^◌, ◌≤◌, ◌<◌, min, max, bit_and, bit_or, bit_xor,
}
pub use mathlib.Core.Path.{◌≡◌, refl, sym, ap, ◌∙◌}
pub use mathlib.Core.Logic.{◌≢◌, ◌↔◌, ◌⊎◌, inl, inr}
pub use mathlib.Core.Bool.{Bool, true, false, not, ◌&&◌, ◌||◌}
pub use mathlib.Core.Option.{Option, none, some}
pub use mathlib.Core.List.{List, [], ◌∷◌, ◌++◌, map, append-nil, append_assoc}
pub use native.Mathlib.Omega.{arith}
unfoldable pub use mathlib.Core.List.{zip}
unfoldable pub use native.Mathlib.Decide.{dec_lt, dec_le, ℕ_discrete}
