-- ===== src/Base/Bits.antt =====
-- The bits of a number, and what the native operations on numbers do to each of them.
use Prim.Native.Nat.{
  ℕ, zero, suc, ◌+◌, ◌-◌, ◌*◌, ◌/◌, ◌%◌, ◌^◌, ◌≤◌, ◌<◌, min, max, bit_and, bit_or, digits,
  bit_and-bitwise, bit_or-bitwise,
}
use mathlib.Core.Path.{◌≡◌, refl, ap, ◌∙◌}
use native.Mathlib.Omega.{arith}
use os_unibo.Base.Tests.{◌==◌, if◌then◌else◌}

-- The bit `k` of a number.
unfoldable pub bit_of : ℕ → ℕ → ℕ
bit_of zero a = a % 2
bit_of (suc k) a = bit_of k (a / 2)

-- The native operations run on fuel. Once it has reached the number, more of it changes nothing.
module _ (on_empty : ℕ → ℕ) (join : ℕ → ℕ → ℕ) where
  one_round_more :
      (rounds a b : ℕ)
      → a ≤ rounds
      → digits on_empty join (suc rounds) a b ≡ digits on_empty join rounds a b
  one_round_more zero zero b enough = refl
  one_round_more zero (suc a) b enough = absurd (omega arith)
  one_round_more (suc rounds) zero b enough = refl
  one_round_more (suc rounds) (suc a) b enough =
      omega (arith, one_round_more rounds (suc a / 2) (b / 2) (omega arith))

  rounds_more :
      (more rounds all a b : ℕ)
      → rounds + more ≡ all
      → a ≤ rounds
      → digits on_empty join all a b ≡ digits on_empty join rounds a b
  rounds_more zero rounds all a b sum enough =
      ap (λ r. digits on_empty join r a b) (omega (arith, sum))
  rounds_more (suc more) rounds zero a b sum enough = absurd (omega arith)
  rounds_more (suc more) rounds (suc all) a b sum enough =
      one_round_more all a b (omega arith) ∙ rounds_more more rounds all a b (omega arith) enough

  half_enough :
      (a b : ℕ)
      → digits on_empty join a (suc a / 2) b ≡ digits on_empty join (suc a / 2) (suc a / 2) b
  half_enough a b =
      rounds_more (a - suc a / 2) (suc a / 2) a (suc a / 2) b (omega arith) (omega arith)

-- The lowest bit of the result comes from the lowest bits of the arguments.
and_step : (a b : ℕ) → bit_and a b ≡ bit_and (a / 2) (b / 2) * 2 + min (a % 2) (b % 2)
and_step zero b = omega (arith, bit_and-bitwise 0 b, bit_and-bitwise 0 (b / 2))
and_step (suc a) b =
    let whole = bit_and-bitwise (suc a) b in
    let halves = bit_and-bitwise (suc a / 2) (b / 2) in
    omega (arith, whole, halves, half_enough (λ _. zero) min a (b / 2))

or_step : (a b : ℕ) → bit_or a b ≡ bit_or (a / 2) (b / 2) * 2 + max (a % 2) (b % 2)
or_step zero b = omega (arith, bit_or-bitwise 0 b, bit_or-bitwise 0 (b / 2))
or_step (suc a) b =
    let whole = bit_or-bitwise (suc a) b in
    let halves = bit_or-bitwise (suc a / 2) (b / 2) in
    omega (arith, whole, halves, half_enough (λ c. c) max a (b / 2))

pub bit_of-or : (k a b : ℕ) → bit_of k (bit_or a b) ≡ max (bit_of k a) (bit_of k b)
unfolding bit_of
bit_of-or zero a b = omega (arith, or_step a b)
bit_of-or (suc k) a b =
    let half : bit_or a b / 2 ≡ bit_or (a / 2) (b / 2) = omega (arith, or_step a b) in
    rw half (bit_of-or k (a / 2) (b / 2))

pub bit_of-and : (k a b : ℕ) → bit_of k (bit_and a b) ≡ min (bit_of k a) (bit_of k b)
unfolding bit_of
bit_of-and zero a b = omega (arith, and_step a b)
bit_of-and (suc k) a b =
    let half : bit_and a b / 2 ≡ bit_and (a / 2) (b / 2) = omega (arith, and_step a b) in
    rw half (bit_of-and k (a / 2) (b / 2))

bit_of-zero : (k : ℕ) → bit_of k 0 ≡ 0
unfolding bit_of
bit_of-zero zero = refl
bit_of-zero (suc k) = bit_of-zero k

-- A power of two has one bit.
pub bit_of-pow : (k n : ℕ) → bit_of k (2 ^ n) ≡ (if k == n then 1 else 0)
unfolding bit_of
bit_of-pow zero zero = refl
bit_of-pow zero (suc n) = ground arith
bit_of-pow (suc k) zero = ground (arith, bit_of-zero k)
bit_of-pow (suc k) (suc n) =
    let half : 2 ^ suc n / 2 ≡ 2 ^ n = omega arith in rw half (ground (arith, bit_of-pow k n))

pub bit_of-le : (k a : ℕ) → bit_of k a ≤ 1
unfolding bit_of
bit_of-le zero a = omega arith
bit_of-le (suc k) a = bit_of-le k (a / 2)

-- The complement of a number of `n` bits.
pub bit_of-complement : (n k a : ℕ) → k < n → a < 2 ^ n → bit_of k (2 ^ n - 1 - a) ≡ 1 - bit_of k a
unfolding bit_of
bit_of-complement zero k a l u = absurd (omega arith)
bit_of-complement (suc n) zero a l u = omega arith
bit_of-complement (suc n) (suc k) a l u =
    let half : (2 ^ suc n - 1 - a) / 2 ≡ 2 ^ n - 1 - a / 2 = omega arith in
    rw half (bit_of-complement n k (a / 2) (omega arith) (omega arith))

and-zero : (n a : ℕ) → a ≤ n → bit_and a 0 ≡ 0
and-zero n zero h = refl
and-zero zero (suc a) h = absurd (omega arith)
and-zero (suc n) (suc a) h = omega (arith, and_step (suc a) 0, and-zero n (suc a / 2) (omega arith))

-- `a & 2 ^ k` tests the bit `k`.
pub and-pow : (k a : ℕ) → bit_and a (2 ^ k) ≡ bit_of k a * 2 ^ k
unfolding bit_of
and-pow zero a = omega (arith, and_step a 1, and-zero (a / 2) (a / 2) (omega arith))
and-pow (suc k) a =
    let half : 2 ^ suc k / 2 ≡ 2 ^ k = omega arith in
    let even : 2 ^ suc k % 2 ≡ 0 = omega arith in
    let step : bit_and a (2 ^ suc k) ≡ bit_and (a / 2) (2 ^ k) * 2 =
      rw half at (and_step a (2 ^ suc k)) ∙ omega (arith, even) in
    grind (arith, step, and-pow k (a / 2))

or-zero : (n a : ℕ) → a ≤ n → bit_or a 0 ≡ a
or-zero n zero h = omega (arith, bit_or-bitwise 0 0)
or-zero zero (suc a) h = absurd (omega arith)
or-zero (suc n) (suc a) h = omega (arith, or_step (suc a) 0, or-zero n (suc a / 2) (omega arith))

times_two : (h p : ℕ) → h * (p * 2) ≡ h * p * 2
times_two h p = grind arith

-- The bits of the lower part of a number and of the upper part do not meet.
pub or-shifted : (k h l : ℕ) → l < 2 ^ k → bit_or (h * 2 ^ k) l ≡ h * 2 ^ k + l
or-shifted zero h zero u = omega (arith, or-zero (h * 1) (h * 1) (omega arith))
or-shifted zero h (suc l) u = absurd (omega arith)
or-shifted (suc k) h l u =
    let double : 2 ^ suc k ≡ 2 ^ k * 2 = omega arith in
    let twice : h * 2 ^ suc k ≡ h * 2 ^ k * 2 = rw double (times_two h (2 ^ k)) in
    let half : h * 2 ^ suc k / 2 ≡ h * 2 ^ k = omega (arith, twice) in
    let even : h * 2 ^ suc k % 2 ≡ 0 = omega (arith, twice) in
    let step : bit_or (h * 2 ^ suc k) l ≡ bit_or (h * 2 ^ k) (l / 2) * 2 + l % 2 =
      rw half at (or_step (h * 2 ^ suc k) l) ∙ omega (arith, even) in
    omega (arith, twice, step, or-shifted k h (l / 2) (omega arith))

pub and-le : (n a b : ℕ) → a ≤ n → bit_and a b ≤ a
and-le n zero b h = omega (arith, bit_and-bitwise 0 b)
and-le zero (suc a) b h = absurd (omega arith)
and-le (suc n) (suc a) b h =
    omega (arith, and_step (suc a) b, and-le n (suc a / 2) (b / 2) (omega arith))

pub or-lt : (n a b : ℕ) → a < 2 ^ n → b < 2 ^ n → bit_or a b < 2 ^ n
or-lt zero a zero p q = omega (arith, or-zero a a (omega arith))
or-lt zero a (suc b) p q = absurd (omega arith)
or-lt (suc n) a b p q =
    omega (arith, or_step a b, or-lt n (a / 2) (b / 2) (omega arith) (omega arith))

pub pow-pos : (n : ℕ) → 0 < 2 ^ n
pow-pos zero = omega arith
pow-pos (suc n) = omega (arith, pow-pos n)
