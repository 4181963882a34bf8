-- ===== src/Bitmap/Laws.antt =====
-- A bitmap refines a set of numbers.
use os_unibo.Base.{ℕ, ◌-◌, ◌/◌, ◌%◌, ◌^◌, ◌<◌, ◌≡◌, ◌==◌, if◌then◌else◌, arith}
use os_unibo.Base.{
  bit_of, bit_of-or, bit_of-and, bit_of-pow, bit_of-le, bit_of-complement, and-pow, and-le, or-lt,
  pow-pos, zero, suc,
}
use os_unibo.Bitmap.{
  set_bit, clear_bit, get_bit, word_offset, bit_offset, mask, complement, bits_per_word,
}

pow_lt : (k n : ℕ) → k < n → 2 ^ k < 2 ^ n
pow_lt k zero l = absurd (omega arith)
pow_lt zero (suc n) l = omega (arith, pow-pos n)
pow_lt (suc k) (suc n) l = omega (arith, pow_lt k n (omega arith))

-- The words are numbers of 32 bits.
abbrev pub AreWords : (ℕ → ℕ) → Type 0
AreWords bitmap = (i : ℕ) → bitmap i < 2 ^ bits_per_word

get_bit-bit_of : (bitmap : ℕ → ℕ) (n : ℕ) → get_bit bitmap n ≡ bit_of (n % 32) (bitmap (n / 32))
unfolding get_bit mask bit_offset word_offset
get_bit-bit_of bitmap n = grind (
  arith,
  and-pow (n % 32) (bitmap (n / 32)),
  bit_of-le (n % 32) (bitmap (n / 32)),
  pow-pos (n % 32),
)

-- A mask is a word.
mask_lt : (n : ℕ) → mask n < 2 ^ 32
unfolding mask bit_offset
mask_lt n = pow_lt (n % 32) 32 (omega arith)

-- What a bitmap stands for after one of the writes: `n` is put in or out, and no other number.
pub record Written (bitmap : ℕ → ℕ) (n value : ℕ) (bitmap' : ℕ → ℕ) : Type 0 where
  pub bits : (m : ℕ) → get_bit bitmap' m ≡ (if m == n then value else get_bit bitmap m)
  pub words : AreWords bitmap'

module _ (bitmap : ℕ → ℕ) (words : AreWords bitmap) (n : ℕ) where
  set_bit-bits : (m : ℕ) → get_bit (set_bit bitmap n) m ≡ (if m == n then 1 else get_bit bitmap m)
  unfolding set_bit word_offset mask bit_offset
  set_bit-bits m =
      rw (get_bit-bit_of (set_bit bitmap n) m, get_bit-bit_of bitmap m)
        (ground (
          arith,
          bit_of-or (m % 32) (bitmap (n / 32)) (2 ^ (n % 32)),
          bit_of-pow (m % 32) (n % 32),
          bit_of-le (m % 32) (bitmap (n / 32)),
        ))

  set_bit-Written : Written bitmap n 1 (set_bit bitmap n)
  unfolding set_bit
  set_bit-Written = record {
    bits = set_bit-bits;
    words = λ i. ground (
      arith,
      words i,
      or-lt 32 (bitmap (word_offset n)) (mask n),
      words (word_offset n),
      mask_lt n,
    );
  }

  clear_bit-bits :
      (m : ℕ) → get_bit (clear_bit bitmap n) m ≡ (if m == n then 0 else get_bit bitmap m)
  unfolding clear_bit word_offset mask bit_offset complement
  clear_bit-bits m =
      rw (get_bit-bit_of (clear_bit bitmap n) m, get_bit-bit_of bitmap m)
        (ground (
          arith,
          bit_of-and (m % 32) (bitmap (n / 32)) (2 ^ 32 - 1 - 2 ^ (n % 32)),
          bit_of-complement 32 (m % 32) (2 ^ (n % 32)),
          pow_lt (n % 32) 32 (omega arith),
          bit_of-pow (m % 32) (n % 32),
          bit_of-le (m % 32) (bitmap (n / 32)),
        ))

  clear_bit-Written : Written bitmap n 0 (clear_bit bitmap n)
  unfolding clear_bit
  clear_bit-Written = record {
    bits = clear_bit-bits;
    words = λ i. ground (
      arith,
      words i,
      and-le (bitmap (word_offset n)) (bitmap (word_offset n)) (complement (mask n)),
      words (word_offset n),
    );
  }

  -- A bitmap is a set of numbers: of every number `m`, `get_bit` says after `set_bit` that it is
  -- `n` or was in the set, and after `clear_bit` that it was in the set and is not `n`. The words
  -- stay numbers of 32 bits.
  pub bitmap-Written :
      Written bitmap n 1 (set_bit bitmap n) × Written bitmap n 0 (clear_bit bitmap n)
  bitmap-Written = (set_bit-Written, clear_bit-Written)
