-- ===== src/Base/Room.antt =====
-- How many addresses a row of descriptors has.
use os_unibo.Base.Seq.{length, ◌∈◌, IsDistinct, erase, has-erase, IsDistinct-erase, length-le-erase}
use mathlib.Core.Path.{◌≡◌}
use mathlib.Core.List.{List, [], ◌∷◌}
use Prim.Native.Nat.{ℕ, zero, suc, ◌+◌, ◌*◌, ◌%◌, ◌≤◌, ◌<◌}
use native.Mathlib.Omega.{arith}

-- `n` descriptors have one address each with a given offset, so distinct ones are `n` at most.
pub length-le-room :
    (base n : ℕ) (xs : List ℕ)
    → IsDistinct xs
    → ((a : ℕ) → a ∈ xs → (a % 16 ≡ base % 16) × (base ≤ a) × (a < base + 16 * n))
    → length xs ≤ n
length-le-room base zero [] d h = omega arith
length-le-room base zero (x ∷ xs) d h = absurd (ground (arith, h x))
length-le-room base (suc n) xs d h =
    let top = base + 16 * n in
    let fewer : length (erase top xs) ≤ n =
      length-le-room base n (erase top xs) (IsDistinct-erase top xs d)
        (λ a i. ground (arith, has-erase a top xs d, h a)) in
    omega (arith, length-le-erase top xs)
