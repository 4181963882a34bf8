-- ===== src/Syslib.antt =====
-- syslib.c: formatted printing, and `memcpy` in Copy. What is printed is a list of character codes, and a string is the
-- list of its characters without the final 0. The operands of `+` are taken from left to right.
pub mod Numbers
pub mod Format
pub mod Copy
use os_unibo.Base.{
  ℕ, zero, suc, ◌+◌, ◌-◌, ◌*◌, ◌/◌, ◌%◌, List, [], ◌∷◌, ◌++◌, Option, none, some, ◌>>=◌, ltb, ◌==◌,
  if◌then◌else◌,
}

-- The printed characters and the number that the function returns.
pub record Out : Type 0 where
  pub chars : List ℕ
  pub count : ℕ

abbrev pub nothing : Out
nothing = record { chars = []; count = 0 }

abbrev pub join : Out → Out → Out
join a b = record { chars = a.chars ++ b.chars; count = a.count + b.count }

unfoldable pub putcx : ℕ → Out
putcx c = if c == 0 then nothing else record { chars = c ∷ []; count = 1 }

-- `backchar`
unfoldable pub backchar : ℕ → ℕ
backchar c =
    if c == 97
    then 7
    else (if c == 98
        then 8
        else (if c == 102
            then 12
            else (if c == 110
                then 10
                else (if c == 114
                    then 13
                    else (if c == 116
                        then 9
                        else (if c == 118
                            then 11
                            else (if c == 92
                                then 92
                                else (if c == 39
                                    then 39
                                    else (if c == 34
                                        then 34
                                        else (if c == 63 then 63 else 0))))))))))

unfoldable pub put_backslash : ℕ → Out
unfolding putcx backchar
put_backslash c = putcx (backchar (c % 128))

-- `rvrp_int`, for numbers of at most `fuel` digits.
unfoldable pub rvrp_int : (fuel val : ℕ) → Option Out
unfolding putcx
rvrp_int zero val = if val == 0 then some nothing else none
rvrp_int (suc fuel) val =
    let rest = rvrp_int fuel (val / 10) in
    if val == 0 then some nothing else (do r ← rest; some (join r (putcx (48 + val % 10))))

unfoldable pub hex_cx : ℕ → ℕ
hex_cx n = if ltb n 10 then 48 + n else 97 + n % 10

-- `n` zeros.
unfoldable pub put_zeros : ℕ → List ℕ
put_zeros zero = []
put_zeros (suc n) = 48 ∷ put_zeros n

-- `rvrp_pointer`
unfoldable pub rvrp_pointer : (fuel p dept : ℕ) → Option Out
unfolding putcx hex_cx put_zeros
rvrp_pointer zero p dept = none
rvrp_pointer (suc fuel) p dept =
    let rest = rvrp_pointer fuel (p / 16) (dept + 1) in
    if p == 0
    then some (record { chars = put_zeros (8 - dept); count = 8 - dept })
    else (do r ← rest; some (join r (putcx (hex_cx (p % 16)))))
