-- ===== src/Syslib/Format/Count.antt =====
-- What `tprintf` returns is the number of characters that it prints.
use os_unibo.Base.{
  ℕ, suc, ◌<◌, ◌≤◌, ◌≡◌, inl, inr, refl, sym, ◌%◌, pos, negsuc, List, [], ◌∷◌, some, Bool, true,
  false, ◌&&◌, ltb, ◌==◌, if◌then◌else◌, arith, length, length-append, Bool-cases,
}
use os_unibo.Syslib.{Out, nothing, join, putcx, backchar, put_backslash}
use os_unibo.Syslib.Numbers.{rvrp_int-value, rvrp_pointer-value}
use os_unibo.Syslib.Format.{
  vrp_int, after_backslash, vrp_string, vrp_pointer, Arg, int, string, pointer, convert,
  is_conversion, vrprintf, tprintf,
}

abbrev pub IsExact : Out → Type 0
IsExact r = r.count ≡ length r.chars

-- The first argument is one that the conversion takes, in the range of its type, and `rest` holds of
-- the others.
unfoldable pub takes : (conversion : ℕ) → List Arg → (rest : List Arg → Bool) → Bool
takes c [] rest = false
takes c (int (pos val) ∷ args) rest = c == 100 && (ltb val 0x8000_0000 && rest args)
takes c (int (negsuc n) ∷ args) rest = c == 100 && (ltb n 0x7fff_ffff && rest args)
takes c (string s ∷ args) rest = c == 115 && rest args
takes c (pointer p ∷ args) rest = c == 112 && (ltb p 0x1_0000_0000 && rest args)

-- Each conversion is `%%`, `%d`, `%s` or `%p` and has its argument.
unfoldable pub fits : List ℕ → List Arg → Bool
unfolding takes
fits [] args = true
fits (c ∷ []) args = true
fits (c ∷ d ∷ format) args =
    let after = fits format args in
    let with_arg = takes d args (λ rest. fits format rest) in
    let plain = fits (d ∷ format) args in
    if c == 37 then (if d == 37 then after else with_arg) else (if c == 92 then after else plain)

join-IsExact : (a b : Out) → IsExact a → IsExact b → IsExact (join a b)
join-IsExact a b ea eb = rw (ea, eb) (sym (length-append a.chars b.chars))

putcx-IsExact : (c : ℕ) → IsExact (putcx c) × ((putcx c).count ≤ 1)
unfolding putcx
putcx-IsExact c = elim (Bool-cases (c == 0)) [
  | inl e ↦ rw e (refl, omega arith)
  | inr e ↦ rw e (refl, omega arith)
]

after_backslash-IsExact :
    (c : ℕ) (rest : Out) → IsExact rest → IsExact (after_backslash (put_backslash c) rest)
unfolding after_backslash put_backslash
after_backslash-IsExact c rest e =
    let (exact, small) = putcx-IsExact (backchar (c % 128)) in
    elim (Bool-cases ((putcx (backchar (c % 128))).count == 0)) [
      | inl z ↦ rw z exact
      | inr z ↦
          rw (z, length-append (putcx (backchar (c % 128))).chars rest.chars)
            (ground (arith, exact, small, e, z))
    ]

vrp_string-IsExact : (s : List ℕ) → IsExact (vrp_string s)
unfolding vrp_string
vrp_string-IsExact [] = refl
vrp_string-IsExact (c ∷ []) = elim (Bool-cases (c == 92)) [
  | inl e ↦ rw e refl
  | inr e ↦ rw e ((putcx-IsExact c).0)
]
vrp_string-IsExact (c ∷ d ∷ s) = elim (Bool-cases (c == 92)) [
  | inl e ↦ rw e (after_backslash-IsExact d (vrp_string s) (vrp_string-IsExact s))
  | inr e ↦ rw e (
      join-IsExact (putcx c) (vrp_string (d ∷ s)) ((putcx-IsExact c).0)
        (vrp_string-IsExact (d ∷ s)))
]

vrp_int-pos : (n : ℕ) → n < 0x8000_0000 → (r : Out) × (vrp_int (pos n) ≡ some r) × IsExact r
unfolding vrp_int
vrp_int-pos n l = elim (Bool-cases (n == 0)) [
  | inl e ↦ (putcx 48, rw e refl, (putcx-IsExact 48).0)
  | inr e ↦
      let (r, run, _, _, _, exact) = rvrp_int-value 10 n (omega arith) in
      (r, rw (e, run) refl, exact)
]

vrp_int-negsuc : (n : ℕ) → n < 0x7fff_ffff → (r : Out) × (vrp_int (negsuc n) ≡ some r) × IsExact r
unfolding vrp_int
vrp_int-negsuc n l =
    let (r, run, _, _, _, exact) = rvrp_int-value 10 (suc n) (omega arith) in
    (join (putcx 45) r, rw run refl, join-IsExact (putcx 45) r ((putcx-IsExact 45).0) exact)

vrp_pointer-IsExact : (p : ℕ) → p < 0x1_0000_0000 → (r : Out) × (vrp_pointer p ≡ some r) × IsExact r
unfolding vrp_pointer
vrp_pointer-IsExact p l = elim (Bool-cases (p == 0)) [
  | inl e ↦ (record { chars = 40 ∷ 110 ∷ 117 ∷ 108 ∷ 108 ∷ 41 ∷ []; count = 6 }, rw e refl, refl)
  | inr e ↦
      let (r, run, _, _, len, count) = rvrp_pointer-value 8 p 0 (omega arith) refl in
      let prefix : Out = record { chars = 48 ∷ 120 ∷ []; count = 2 } in
      (join prefix r, rw (e, run) refl, join-IsExact prefix r refl (rw (count, len) refl))
]

-- A conversion whose argument fits prints it and goes on with the other arguments.
convert-IsExact :
    (c : ℕ) (args : List Arg) (rest : List Arg → Bool)
    → takes c args rest ≡ true
    → (r : Out) × (others : List Arg) × (convert c args ≡ some (r, others))
      × IsExact r
      × (rest others ≡ true)
      × (is_conversion c ≡ true)
unfolding takes convert
convert-IsExact c [] rest h = absurd (ground arith)
convert-IsExact c (int (pos val) ∷ args) rest h =
    let small : val < 0x8000_0000 = ground arith in
    let is : (c == 100) ≡ true = ground arith in
    let (r, run, exact) = vrp_int-pos val small in
    (r, args, rw (is, run) refl, exact, ground arith, ground arith)
convert-IsExact c (int (negsuc n) ∷ args) rest h =
    let small : n < 0x7fff_ffff = ground arith in
    let is : (c == 100) ≡ true = ground arith in
    let (r, run, exact) = vrp_int-negsuc n small in
    (r, args, rw (is, run) refl, exact, ground arith, ground arith)
convert-IsExact c (string s ∷ args) rest h =
    let is : (c == 115) ≡ true = ground arith in
    (vrp_string s, args, rw is refl, vrp_string-IsExact s, ground arith, ground arith)
convert-IsExact c (pointer p ∷ args) rest h =
    let small : p < 0x1_0000_0000 = ground arith in
    let is : (c == 112) ≡ true = ground arith in
    let (r, run, exact) = vrp_pointer-IsExact p small in
    (r, args, rw (is, run) refl, exact, ground arith, ground arith)

vrprintf-converted :
    (c d : ℕ) (format : List ℕ) (args : List Arg) (shown : Out) (others : List Arg) (r : Out)
    → (c == 37) ≡ true
    → (d == 37) ≡ false
    → is_conversion d ≡ true
    → convert d args ≡ some (shown, others)
    → vrprintf format others ≡ some r
    → vrprintf (c ∷ d ∷ format) args ≡ some (join shown r)
unfolding vrprintf
vrprintf-converted c d format args shown others r e f is ran run = rw (e, f, is, ran, run) refl

vrprintf-IsExact :
    (format : List ℕ) (args : List Arg)
    → fits format args ≡ true
    → (r : Out) × (vrprintf format args ≡ some r) × IsExact r
unfolding fits vrprintf
vrprintf-IsExact [] args h = (nothing, refl, refl)
vrprintf-IsExact (c ∷ []) args h = elim (Bool-cases (c == 37)) [
  | inl e ↦ (nothing, rw e refl, refl)
  | inr e ↦ elim (Bool-cases (c == 92)) [
    | inl b ↦ (nothing, rw (e, b) refl, refl)
    | inr b ↦ (putcx c, rw (e, b) refl, (putcx-IsExact c).0)
  ]
]
vrprintf-IsExact (c ∷ d ∷ format) args h = elim (Bool-cases (c == 37)) [
  | inl e ↦ elim (Bool-cases (d == 37)) [
    | inl f ↦
        let (r, run, exact) = vrprintf-IsExact format args (ground arith) in
        (
          join (putcx d) r,
          rw (e, f, run) refl,
          join-IsExact (putcx d) r ((putcx-IsExact d).0) exact,
        )
    | inr f ↦
        let (shown, others, ran, exact, fit, is) =
          convert-IsExact d args (λ rest. fits format rest) (ground arith) in
        let (r, run, exact') = vrprintf-IsExact format others fit in
        (
          join shown r,
          vrprintf-converted c d format args shown others r e f is ran run,
          join-IsExact shown r exact exact',
        )
  ]
  | inr e ↦ elim (Bool-cases (c == 92)) [
    | inl b ↦
        let (r, run, exact) = vrprintf-IsExact format args (ground arith) in
        elim (Bool-cases ((put_backslash d).count == 0)) [
          | inl z ↦ (nothing, rw (e, b, z) refl, refl)
          | inr z ↦ (
            after_backslash (put_backslash d) r,
            rw (e, b, z, run) refl,
            after_backslash-IsExact d r exact,
          )
        ]
    | inr b ↦
        let (r, run, exact) = vrprintf-IsExact (d ∷ format) args (ground arith) in
        (
          join (putcx c) r,
          rw (e, b, run) refl,
          join-IsExact (putcx c) r ((putcx-IsExact c).0) exact,
        )
  ]
]

-- Where each conversion of the format is known and has an argument of its type, `tprintf` returns
-- the number of characters that it has printed.
pub tprintf-IsExact :
    (format : List ℕ) (args : List Arg)
    → fits format args ≡ true
    → (r : Out) × (tprintf format args ≡ some r) × (r.count ≡ length r.chars)
unfolding tprintf
tprintf-IsExact format args h = vrprintf-IsExact format args h
