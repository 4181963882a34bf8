-- ===== src/Bitmap.antt =====
-- src/bitmap.h: a set of numbers as the bits of an array of words.
pub mod Laws
use Prim.Native.Nat.{bit_and, bit_or}
use os_unibo.Base.{ℕ, ◌-◌, ◌/◌, ◌%◌, ◌^◌, update, ◌==◌, if◌then◌else◌}

-- `BITS_PER_WORD`
abbrev pub bits_per_word : ℕ
bits_per_word = 32

unfoldable pub word_offset : ℕ → ℕ
word_offset b = b / bits_per_word

unfoldable pub bit_offset : ℕ → ℕ
bit_offset b = b % bits_per_word

-- `1 << BIT_OFFSET(n)`
unfoldable pub mask : ℕ → ℕ
unfolding bit_offset
mask n = 2 ^ bit_offset n

-- `~w`
unfoldable pub complement : ℕ → ℕ
complement w = 2 ^ bits_per_word - 1 - w

-- A bitmap is the memory of its words, by their index.
unfoldable pub set_bit : (ℕ → ℕ) → ℕ → ℕ → ℕ
unfolding word_offset mask
set_bit bitmap n = update bitmap (word_offset n) (bit_or (bitmap (word_offset n)) (mask n))

unfoldable pub clear_bit : (ℕ → ℕ) → ℕ → ℕ → ℕ
unfolding word_offset mask complement
clear_bit bitmap n =
    update bitmap (word_offset n) (bit_and (bitmap (word_offset n)) (complement (mask n)))

unfoldable pub get_bit : (ℕ → ℕ) → ℕ → ℕ
unfolding word_offset mask
get_bit bitmap n = if bit_and (bitmap (word_offset n)) (mask n) == 0 then 0 else 1
