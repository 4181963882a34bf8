-- ===== src/Syslib/Numbers.antt =====
-- The printed numbers read back.
use os_unibo.Base.{
  ℕ, zero, suc, Bool, leb, ◌&&◌, ◌||◌, ◌≢◌, ◌+◌, ◌-◌, ◌*◌, ◌/◌, ◌%◌, ◌^◌, ◌≡◌, ◌<◌, refl, List, [],
  ◌∷◌, ◌++◌, some, ltb, true, false, ◌==◌, if◌then◌else◌, arith, length, length-append, Bool-cases,
  inl, inr,
}
use os_unibo.Syslib.{Out, rvrp_int, rvrp_pointer, putcx, hex_cx, put_zeros}

-- The number that a list of digits denotes in base `b`, `digit` giving the value of a character.
unfoldable pub value : (b : ℕ) (digit : ℕ → ℕ) → ℕ → List ℕ → ℕ
value b digit acc [] = acc
value b digit acc (c ∷ cs) = value b digit (b * acc + digit c) cs

pub value-append :
    (b : ℕ) (digit : ℕ → ℕ) (acc : ℕ) (xs : List ℕ) (c : ℕ)
    → value b digit acc (xs ++ c ∷ []) ≡ b * value b digit acc xs + digit c
unfolding value
value-append b digit acc [] c = refl
value-append b digit acc (x ∷ xs) c = value-append b digit (b * acc + digit x) xs c

abbrev pub decimal : ℕ → ℕ
decimal c = c - 48

unfoldable pub hexadecimal : ℕ → ℕ
hexadecimal c = if ltb c 58 then c - 48 else c - 87

-- Every character passes the test.
unfoldable pub all : (ℕ → Bool) → List ℕ → Bool
all test [] = true
all test (c ∷ cs) = test c && all test cs

pub all-append :
    (test : ℕ → Bool) (xs ys : List ℕ) → all test (xs ++ ys) ≡ (all test xs && all test ys)
unfolding all
all-append test [] ys = refl
all-append test (x ∷ xs) ys = ground (arith, all-append test xs ys)

-- 0 to 9, and these or a to f.
unfoldable pub is_decimal : ℕ → Bool
is_decimal c = leb 48 c && leb c 57

unfoldable pub is_hexadecimal : ℕ → Bool
unfolding is_decimal
is_hexadecimal c = is_decimal c || (leb 97 c && leb c 102)

unfoldable pub has_leading_zero : List ℕ → Bool
has_leading_zero [] = false
has_leading_zero (c ∷ cs) = c == 48

-- A digit behind others leaves the first one, and alone it must not be 0.
has_leading_zero-snoc :
    (xs : List ℕ) (v d : ℕ)
    → has_leading_zero xs ≡ false
    → value 10 decimal 0 xs ≡ v
    → 10 * v + d ≢ 0
    → has_leading_zero (xs ++ (48 + d) ∷ []) ≡ false
unfolding has_leading_zero value
has_leading_zero-snoc [] v d none is ne = ground arith
has_leading_zero-snoc (x ∷ xs) v d none is ne = none

putcx-printed : (c : ℕ) → (c == 0) ≡ false → putcx c ≡ record { chars = c ∷ []; count = 1 }
unfolding putcx
putcx-printed c e = rw e refl

-- A number below `10 ^ fuel` is printed as its decimal digits: the characters are digits, the first
-- is not 0, they denote the number, and how many they are is returned. For 0 nothing is printed.
pub rvrp_int-value :
    (fuel val : ℕ)
    → val < 10 ^ fuel
    → (r : Out) × (rvrp_int fuel val ≡ some r)
      × (value 10 decimal 0 r.chars ≡ val)
      × (all is_decimal r.chars ≡ true)
      × (has_leading_zero r.chars ≡ false)
      × (r.count ≡ length r.chars)
unfolding rvrp_int value all is_decimal has_leading_zero
rvrp_int-value zero val l =
    (record { chars = []; count = 0 }, ground arith, ground arith, refl, refl, refl)
rvrp_int-value (suc fuel) val l = elim (Bool-cases (val == 0)) [
  | inl e ↦ (record { chars = []; count = 0 }, rw e refl, ground arith, refl, refl, refl)
  | inr e ↦
      let (r, run, is, digits, first, n) = rvrp_int-value fuel (val / 10) (ground arith) in
      (
        record { chars = r.chars ++ (48 + val % 10) ∷ []; count = r.count + 1 },
        rw (e, run, putcx-printed (48 + val % 10) (ground arith)) refl,
        rw (value-append 10 decimal 0 r.chars (48 + val % 10), is) (omega arith),
        rw (all-append is_decimal r.chars ((48 + val % 10) ∷ []), digits) (ground arith),
        has_leading_zero-snoc r.chars (val / 10) (val % 10) first is (ground arith),
        rw (length-append r.chars ((48 + val % 10) ∷ []), n) refl,
      )
]

-- The digits of a nibble.
hexadecimal-hex_cx : (n : ℕ) → n < 16 → (hexadecimal (hex_cx n) ≡ n) × ((hex_cx n == 0) ≡ false)
unfolding hexadecimal hex_cx
hexadecimal-hex_cx n l = (ground arith, ground arith)

is_hexadecimal-hex_cx : (n : ℕ) → n < 16 → is_hexadecimal (hex_cx n) ≡ true
unfolding is_hexadecimal is_decimal hex_cx
is_hexadecimal-hex_cx n l = ground arith

zeros-hexadecimal : (n : ℕ) → all is_hexadecimal (put_zeros n) ≡ true
unfolding put_zeros all is_hexadecimal is_decimal
zeros-hexadecimal zero = refl
zeros-hexadecimal (suc n) = ground (arith, zeros-hexadecimal n)

zeros-value : (n : ℕ) → (value 16 hexadecimal 0 (put_zeros n) ≡ 0) × (length (put_zeros n) ≡ n)
unfolding put_zeros value hexadecimal
zeros-value zero = (refl, refl)
zeros-value (suc n) = (ground (arith, zeros-value n), ground (arith, zeros-value n))

-- An address below `16 ^ n`, to be printed behind `dept` further digits, 8 in all, is printed as
-- `n` characters, all of them hexadecimal digits, leading zeros included, that denote it.
pub rvrp_pointer-value :
    (n p dept : ℕ)
    → p < 16 ^ n
    → n + dept ≡ 8
    → (r : Out) × (rvrp_pointer (suc n) p dept ≡ some r)
      × (value 16 hexadecimal 0 r.chars ≡ p)
      × (all is_hexadecimal r.chars ≡ true)
      × (length r.chars ≡ n)
      × (r.count ≡ n)
unfolding rvrp_pointer value all is_hexadecimal is_decimal
rvrp_pointer-value zero p dept l e =
    let z : (p == 0) ≡ true = ground arith in
    let d : 8 - dept ≡ 0 = omega arith in
    (
      record { chars = []; count = 0 },
      rw (z, d) (unfold put_zeros in refl),
      omega arith,
      refl,
      refl,
      refl,
    )
rvrp_pointer-value (suc n) p dept l e =
    let d : 8 - dept ≡ suc n = omega arith in
    elim (Bool-cases (p == 0)) [
      | inl z ↦ (
        record { chars = put_zeros (suc n); count = suc n },
        rw (z, d) refl,
        ground (arith, zeros-value (suc n)),
        zeros-hexadecimal (suc n),
        (zeros-value (suc n)).1,
        refl,
      )
      | inr z ↦
          let (r, run, is, digits, len, count) =
            rvrp_pointer-value n (p / 16) (dept + 1) (ground arith) (omega arith) in
          (
            record { chars = r.chars ++ hex_cx (p % 16) ∷ []; count = r.count + 1 },
            rw
                (
                  z,
                  run,
                  putcx-printed (hex_cx (p % 16)) (hexadecimal-hex_cx (p % 16) (omega arith)).1,
                )
                refl,
            rw
                (
                  value-append 16 hexadecimal 0 r.chars (hex_cx (p % 16)),
                  is,
                  (hexadecimal-hex_cx (p % 16) (omega arith)).0,
                )
                (omega arith),
            rw
                (
                  all-append is_hexadecimal r.chars (hex_cx (p % 16) ∷ []),
                  digits,
                  is_hexadecimal-hex_cx (p % 16) (omega arith),
                )
                refl,
            rw (length-append r.chars (hex_cx (p % 16) ∷ []), len) (omega arith),
            omega (arith, count),
          )
    ]
