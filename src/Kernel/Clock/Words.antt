-- ===== src/Kernel/Clock/Words.antt =====
-- clock/accounting.h: a register of 64 bits in two words.
use Prim.Native.Nat.{bit_or}
use os_unibo.Base.{ℕ, ◌+◌, ◌*◌, ◌/◌, ◌%◌, ◌^◌, ◌<◌, ◌≡◌, arith, or-shifted}
use os_unibo.Kernel.{word_size}

-- `uint64_t` drops what is shifted out.
unfoldable pub pack : (reg_low reg_high : ℕ) → ℕ
pack reg_low reg_high = bit_or ((reg_high * word_size) % 2 ^ 64) reg_low

unfoldable pub unpack : ℕ → ℕ × ℕ
unpack reg = (reg % word_size, reg / word_size)

pack_lem :
    (low high : ℕ) → low < word_size → high < word_size → pack low high ≡ high * word_size + low
unfolding pack
pack_lem low high l h =
    let fits : (high * word_size) % 2 ^ 64 ≡ high * word_size = omega arith in
    rw fits (or-shifted 32 high low l)

-- Two words that are packed into a register come out of it, and a register of 64 bits is the packing
-- of its two words.
pub unpack-pack :
    (low high reg : ℕ)
    → low < word_size
    → high < word_size
    → reg < 2 ^ 64
    → (unpack (pack low high) ≡ (low, high)) × (pack (unpack reg).0 (unpack reg).1 ≡ reg)
unfolding unpack
unpack-pack low high reg l h r =
    ground (arith, pack_lem low high l h, pack_lem (reg % word_size) (reg / word_size))
