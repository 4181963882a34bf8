-- ===== src/Syslib/Copy.antt =====
-- `memcpy` of syslib.c.
use os_unibo.Base.{
  ℕ, zero, suc, ◌+◌, ◌-◌, ◌≤◌, ◌≡◌, ◌⊎◌, Ptr, update, ltb, leb, ◌&&◌, if◌then◌else◌, arith,
}

-- The rounds of the loop from `i` on, of which `left` are left.
unfoldable pub copy_from : (left i : ℕ) (dest source : Ptr) → (Ptr → ℕ) → Ptr → ℕ
copy_from zero i dest source bytes = bytes
copy_from (suc left) i dest source bytes =
    copy_from left (i + 1) dest source (update bytes (dest + i) (bytes (source + i)))

-- The memory after the call, and what the call returns.
unfoldable pub memcpy : (dest source : Ptr) (num : ℕ) → (Ptr → ℕ) → (Ptr → ℕ) × Ptr
unfolding copy_from
memcpy dest source num bytes = (copy_from num 0 dest source bytes, dest)

-- All the bytes at once.
abbrev pub copied : (dest source : Ptr) (num : ℕ) → (Ptr → ℕ) → Ptr → ℕ
copied dest source num bytes x =
    if leb dest x && ltb x (dest + num) then bytes (source + (x - dest)) else bytes x

module _ (dest source : Ptr) (num : ℕ) (apart : (dest ≤ source) ⊎ (source + num ≤ dest)) where
  copy_from-eq :
      (left i : ℕ) (bytes : Ptr → ℕ) (x : Ptr)
      → i + left ≡ num
      → copy_from left i dest source bytes x
        ≡ (if leb (dest + i) x && ltb x (dest + num) then bytes (source + (x - dest)) else bytes x)
  unfolding copy_from
  copy_from-eq zero i bytes x e = ground arith
  copy_from-eq (suc left) i bytes x e = ground (
    arith,
    copy_from-eq left (i + 1) (update bytes (dest + i) (bytes (source + i))) x (omega arith),
  )

  -- Where the destination begins no later than the source, or behind its end, copying byte by byte
  -- is the same as copying all the bytes at once. The call returns the destination.
  pub memcpy-copied :
      (bytes : Ptr → ℕ) (x : Ptr)
      → ((memcpy dest source num bytes).0 x ≡ copied dest source num bytes x)
        × ((memcpy dest source num bytes).1 ≡ dest)
  unfolding memcpy
  memcpy-copied bytes x = ground (arith, copy_from-eq num 0 bytes x)
