-- ===== src/Mikabooq/Thread/Used.antt =====
-- How many threads of the pool are in use.
use os_unibo.Base.{
  ℕ, zero, suc, ◌≡◌, ◌≢◌, ◌<◌, ◌≤◌, refl, Ptr, null, update, arith, ◌==◌, if◌then◌else◌, Bool-cases,
  inl, inr,
}
use os_unibo.Mikabooq.{thread, max_thread}
use os_unibo.Mikabooq.Layout.{IsThread}

-- Among the first `n` threads, by their processes.
unfoldable pub used_below : ℕ → (Ptr → Ptr) → ℕ
used_below zero pcb = 0
used_below (suc n) pcb =
    let rest = used_below n pcb in if pcb (thread n) == null then rest else suc rest

abbrev pub used : (Ptr → Ptr) → ℕ
used pcb = used_below max_thread pcb

used_below-above :
    (n : ℕ) (pcb : Ptr → Ptr) (t x : Ptr)
    → thread n ≤ t
    → used_below n (update pcb t x) ≡ used_below n pcb
unfolding used_below
used_below-above zero pcb t x le = refl
used_below-above (suc n) pcb t x le =
    let rest = used_below-above n pcb t x (omega (arith, le)) in ground (arith, rest, le)

used_below-grows :
    (n : ℕ) (pcb : Ptr → Ptr) (t x : Ptr)
    → IsThread t
    → t < thread n
    → pcb t ≡ null
    → x ≢ null
    → used_below n (update pcb t x) ≡ suc (used_below n pcb)
unfolding used_below
used_below-grows zero pcb t x it lt free real = absurd (omega (arith, it, lt))
used_below-grows (suc n) pcb t x it lt free real = elim (Bool-cases (t == thread n)) [
  | inl hit ↦ ground (arith, hit, free, real, used_below-above n pcb t x)
  | inr miss ↦
      let other : t ≢ thread n = ground arith in
      let rest = used_below-grows n pcb t x it (omega (arith, lt, it, other)) free real in
      ground (arith, rest, miss)
]

pub used_below-le : (n : ℕ) (pcb : Ptr → Ptr) → used_below n pcb ≤ n
unfolding used_below
used_below-le zero pcb = omega arith
used_below-le (suc n) pcb = ground (arith, used_below-le n pcb)

used_below-shrinks :
    (n : ℕ) (pcb : Ptr → Ptr) (t : Ptr)
    → IsThread t
    → t < thread n
    → pcb t ≢ null
    → suc (used_below n (update pcb t null)) ≡ used_below n pcb
unfolding used_below
used_below-shrinks zero pcb t it lt real = absurd (omega (arith, it, lt))
used_below-shrinks (suc n) pcb t it lt real = elim (Bool-cases (t == thread n)) [
  | inl hit ↦ ground (arith, hit, real, used_below-above n pcb t null)
  | inr miss ↦
      let other : t ≢ thread n = ground arith in
      let rest = used_below-shrinks n pcb t it (omega (arith, lt, it, other)) real in
      ground (arith, rest, miss)
]

-- A thread that is taken from the free ones is one more, and one that is freed is one less.
pub used-grows :
    (pcb : Ptr → Ptr) (t x : Ptr)
    → IsThread t
    → pcb t ≡ null
    → x ≢ null
    → used (update pcb t x) ≡ suc (used pcb)
used-grows pcb t x it free real =
    used_below-grows max_thread pcb t x it (omega (arith, it)) free real

pub used-shrinks :
    (pcb : Ptr → Ptr) (t : Ptr)
    → IsThread t
    → pcb t ≢ null
    → suc (used (update pcb t null)) ≡ used pcb
used-shrinks pcb t it real = used_below-shrinks max_thread pcb t it (omega (arith, it)) real

pub used-none :
    (n : ℕ) (pcb : Ptr → Ptr)
    → ((t : Ptr) → IsThread t → pcb t ≡ null)
    → n ≤ max_thread
    → used_below n pcb ≡ 0
unfolding used_below
used-none zero pcb none le = refl
used-none (suc n) pcb none le =
    let rest = used-none n pcb none (omega (arith, le)) in
    let free : pcb (thread n) ≡ null = none (thread n) (omega (arith, le)) in
    ground (arith, rest, free)
