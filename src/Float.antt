-- ===== src/Float.antt =====
-- Go's float64. The model has no floats of its own: every definition takes the type and the
-- operations that the code applies to it from an instance of `Float`. `IsOrdered` (Float/Laws)
-- and `IsExact` (Float/Exact) are what IEEE 754 says of them, and `Nano` (Float/Nano) is a
-- concrete type that has all of it, on which the definitions run.
--
-- The code's `a*b + c` is two operations here, each rounded, as on amd64.
mod Defs
pub mod Laws
pub mod Order
pub mod Exact
pub mod Rounding
pub mod Nano
unfoldable pub use Defs.*
