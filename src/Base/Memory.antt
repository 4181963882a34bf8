-- ===== src/Base/Memory.antt =====
-- Addresses, and memories as functions of an address.
use Prim.Native.Nat.{ℕ}
use os_unibo.Base.Tests.{◌==◌, if◌then◌else◌}

-- Pointers are numbers, as they are in the registers of the machine.
abbrev pub Ptr : Type 0
Ptr = ℕ

abbrev pub null : Ptr
null = 0

-- A write to one address of a memory that holds values of `A`.
abbrev pub update {ℓ} : {A : Type ℓ} → (Ptr → A) → Ptr → A → Ptr → A
update f a v x = if x == a then v else f x
