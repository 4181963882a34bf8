-- ===== src/Tests/Start.antt =====
-- The start of the system, the bitmap and the copies of memory.
use os_unibo.Base.{ℕ, ◌≡◌, inl, arith}
use os_unibo.Bitmap.{set_bit, clear_bit}
use os_unibo.Bitmap.Laws.{Written, bitmap-Written}
use os_unibo.Kernel.Clock.Words.{pack, unpack, unpack-pack}
use os_unibo.Syslib.Copy.{memcpy, copied, memcpy-copied}
use os_unibo.Start.{Image, main}
use os_unibo.Start.Laws.{Launched, main-Launched}
use os_unibo.Tests.Blank.{zero_cpu}
use os_unibo.Tests.Kernel.{quiet}

abbrev pub image : Image
image = record {
  interrupt_at = 0x8000;
  tlbtrap_at = 0x8100;
  pgmtrap_at = 0x8200;
  syscall_at = 0x8300;
  ssi_at = 0x8400;
  test_at = 0x8500;
  ram_top = 0x100000;
  time_scale = 1;
  stst = λ _. zero_cpu;
}

main-Launched_example : Launched image (main image quiet).0 (main image quiet).1
main-Launched_example = main-Launched image quiet

-- Every multiple of 32 is in the set.
abbrev multiples : ℕ → ℕ
multiples i = 1

bitmap-Written_example :
    Written multiples 37 1 (set_bit multiples 37) × Written multiples 37 0 (clear_bit multiples 37)
bitmap-Written_example = bitmap-Written multiples (λ i. omega arith) 37

unpack-pack_example :
    (unpack (pack 7 9) ≡ (7, 9))
    × (pack (unpack 0x9_0000_0007).0 (unpack 0x9_0000_0007).1 ≡ 0x9_0000_0007)
unpack-pack_example = unpack-pack 7 9 0x9_0000_0007 (omega arith) (omega arith) (omega arith)

-- The regions overlap.
memcpy-copied_example :
    ((memcpy 0 1 3 (λ x. x)).0 2 ≡ copied 0 1 3 (λ x. x) 2) × ((memcpy 0 1 3 (λ x. x)).1 ≡ 0)
memcpy-copied_example = memcpy-copied 0 1 3 (inl (omega arith)) (λ x. x) 2
