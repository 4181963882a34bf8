-- ===== src/Base.antt =====
-- The names that the other modules share: those of the libraries, passed on, and those of the
-- children: tests on numbers, finite sequences of addresses, the memory of the machine.
mod Tests
mod Seq
mod Memory
mod Int
mod Chain
mod Room
mod Bits
unfoldable pub use Bits.{bit_of}
pub use Bits.{
  bit_of-or, bit_of-and, bit_of-pow, bit_of-le, bit_of-complement, and-pow, or-shifted, and-le,
  or-lt, pow-pos,
}
pub use Room.{length-le-room}
pub use Chain.{◌>>=◌}
pub use Int.{ℤ, pos, negsuc}
pub use Tests.*
pub use Memory.*
pub use Seq.{
  length, has, ◌∈◌, ◌∉◌, IsDistinct, has-append, IsDistinct-snoc, not-has-erase, has-erase,
  nil_of_none, nil_or_cons, uncons, erase-snoc, length-le-erase, IsDistinct-erase, length-append,
  length-erase, length-le-within,
}
unfoldable pub use Seq.{erase}
pub use Prim.Native.Nat.{ℕ, zero, suc, ◌+◌, ◌-◌, ◌*◌, ◌/◌, ◌%◌, ◌^◌, ◌≤◌, ◌<◌}
pub use mathlib.Core.Path.{◌≡◌, refl, sym, ap, subst, ◌∙◌, fun_ext}
pub use mathlib.Core.Logic.{◌≢◌, ◌↔◌, ◌⊎◌, inl, inr}
pub use mathlib.Core.Bool.{Bool, true, false, not, ◌&&◌, ◌||◌}
pub use mathlib.Core.Option.{Option, none, some}
pub use mathlib.Core.List.{List, [], ◌∷◌, ◌++◌}
pub use native.Mathlib.Omega.{arith}
