-- ===== src/Tests/Syslib.antt =====
-- Printing.
use os_unibo.Base.{true, false, ◌≡◌, refl, some, length, arith, List, negsuc, ℕ, ◌∷◌, []}
use os_unibo.Syslib.{Out, rvrp_int, rvrp_pointer}
use os_unibo.Syslib.Format.{int, tprintf}
use os_unibo.Syslib.Format.Count.{fits, takes, tprintf-IsExact}
use os_unibo.Syslib.Numbers.{
  value, decimal, hexadecimal, all, is_decimal, is_hexadecimal, has_leading_zero, rvrp_int-value,
  rvrp_pointer-value,
}

-- 2048.
rvrp_int-value_example :
    (r : Out) × (rvrp_int 10 2048 ≡ some r)
    × (value 10 decimal 0 r.chars ≡ 2048)
    × (all is_decimal r.chars ≡ true)
    × (has_leading_zero r.chars ≡ false)
    × (r.count ≡ length r.chars)
rvrp_int-value_example = rvrp_int-value 10 2048 (omega arith)

-- 0x00001f40.
rvrp_pointer-value_example :
    (r : Out) × (rvrp_pointer 9 8000 0 ≡ some r)
    × (value 16 hexadecimal 0 r.chars ≡ 8000)
    × (all is_hexadecimal r.chars ≡ true)
    × (length r.chars ≡ 8)
    × (r.count ≡ 8)
rvrp_pointer-value_example = rvrp_pointer-value 8 8000 0 (omega arith) refl

-- "n = %d\n", in which the backslash stands in the format.
abbrev format : List ℕ
format = 110 ∷ 32 ∷ 61 ∷ 32 ∷ 37 ∷ 100 ∷ 92 ∷ 110 ∷ []

tprintf-IsExact_example :
    (r : Out) × (tprintf format (int (negsuc 41) ∷ []) ≡ some r) × (r.count ≡ length r.chars)
tprintf-IsExact_example = tprintf-IsExact format (int (negsuc 41) ∷ []) (unfold fits takes in refl)
