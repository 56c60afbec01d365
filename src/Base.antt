-- ===== src/Base.antt =====
-- What the modules share: library names passed on, C's tests, lists and texts, memory, bits.
mod Tests
mod Text
mod Padded
mod Bytes
mod Undefined
mod Receiving
pub mod Bits
pub mod Xor
pub mod Decimal
pub use Tests.*
pub use Text.*
pub use Padded.*
pub use Bytes.*
pub use Undefined.*
pub use Receiving.*
pub use Prim.Native.Nat.{ℕ, zero, suc, ◌+◌, ◌-◌, ◌*◌, ◌/◌, ◌%◌, ◌^◌, ◌≤◌, ◌<◌}
pub use Prim.Native.Nat.{bit_and, bit_or, bit_xor}
pub use mathlib.Core.Path.{◌≡◌, refl, sym, ap, ◌∙◌}
pub use mathlib.Core.Logic.{◌≢◌, ◌↔◌, ◌⊎◌, inl, inr}
pub use mathlib.Core.Bool.{Bool, true, false, not, ◌&&◌, ◌||◌}
pub use mathlib.Core.Option.{Option, none, some}
pub use mathlib.Core.List.{List, [], ◌∷◌, ◌++◌, map}
pub use native.Mathlib.Omega.{arith}
