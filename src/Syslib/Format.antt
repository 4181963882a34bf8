-- ===== src/Syslib/Format.antt =====
-- syslib.c: `vrprintf` and its helpers, and the number that `tprintf` returns.
pub mod Count
use os_unibo.Base.{
  ℕ, zero, suc, ◌+◌, ℤ, pos, negsuc, List, [], ◌∷◌, ◌++◌, Option, none, some, ◌>>=◌, ◌==◌, Bool,
  ◌||◌, if◌then◌else◌,
}
use os_unibo.Syslib.{Out, nothing, join, putcx, put_backslash, rvrp_int, rvrp_pointer}

-- `vrp_int`. An `int` has ten digits at most.
unfoldable pub vrp_int : ℤ → Option Out
unfolding putcx
vrp_int (pos val) = if val == 0 then some (putcx 48) else rvrp_int 10 val
vrp_int (negsuc n) = do r ← rvrp_int 10 (suc n); some (join (putcx 45) r)

-- `put_backslash(c) ? rest + 1 : 0`
unfoldable pub after_backslash : Out → Out → Out
after_backslash put rest =
    if put.count == 0
    then put
    else record { chars = put.chars ++ rest.chars; count = rest.count + 1 }

-- `vrp_string`
unfoldable pub vrp_string : List ℕ → Out
unfolding putcx put_backslash after_backslash
vrp_string [] = nothing
vrp_string (c ∷ []) = if c == 92 then nothing else putcx c
vrp_string (c ∷ d ∷ s) =
    let escaped = after_backslash (put_backslash d) (vrp_string s) in
    let plain = join (putcx c) (vrp_string (d ∷ s)) in if c == 92 then escaped else plain

-- `vrp_pointer`
unfoldable pub vrp_pointer : ℕ → Option Out
vrp_pointer p =
    let digits = (do
      r ← rvrp_pointer 9 p 0
      some (join (record { chars = 48 ∷ 120 ∷ []; count = 2 }) r)) in
    if p == 0
    then some (record { chars = 40 ∷ 110 ∷ 117 ∷ 108 ∷ 108 ∷ 41 ∷ []; count = 6 })
    else digits

-- A variable argument.
pub data Arg : Type 0 where
  int : ℤ → Arg
  string : List ℕ → Arg
  pointer : ℕ → Arg

-- The argument that the conversion `c` takes; `none` where the list of arguments does not fit.
unfoldable pub convert : (c : ℕ) → List Arg → Option (Out × List Arg)
unfolding vrp_int vrp_string vrp_pointer
convert c [] = none
convert c (int val ∷ args) = if c == 100 then (do r ← vrp_int val; some (r, args)) else none
convert c (string s ∷ args) = if c == 115 then some (vrp_string s, args) else none
convert c (pointer p ∷ args) = if c == 112 then (do r ← vrp_pointer p; some (r, args)) else none

-- `d`, `s` and `p`.
abbrev pub is_conversion : ℕ → Bool
is_conversion c = c == 100 || (c == 115 || c == 112)

-- `vrprintf`, with `vrp_percent` for what follows a `%`.
unfoldable pub vrprintf : List ℕ → List Arg → Option Out
unfolding putcx put_backslash after_backslash convert
vrprintf [] args = some nothing
vrprintf (c ∷ []) args =
    if c == 37 then some nothing else (if c == 92 then some nothing else some (putcx c))
vrprintf (c ∷ d ∷ format) args =
    let escaped = (do r ← vrprintf format args; some (after_backslash (put_backslash d) r)) in
    let percent = (do r ← vrprintf format args; some (join (putcx d) r)) in
    let converted = (do
      shown ← convert d args
      r ← vrprintf format shown.1
      some (join shown.0 r)) in
    let plain = (do r ← vrprintf (d ∷ format) args; some (join (putcx c) r)) in
    if c == 37
    then (if d == 37
        then percent
        else (if is_conversion d
            then converted
            else some (record { chars = 69 ∷ 82 ∷ 82 ∷ 79 ∷ 82 ∷ 10 ∷ []; count = 0 })))
    else (if c == 92
        then (if (put_backslash d).count == 0 then some nothing else escaped)
        else plain)

-- `tprintf`
unfoldable pub tprintf : List ℕ → List Arg → Option Out
unfolding vrprintf
tprintf format args = vrprintf format args
