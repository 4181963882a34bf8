-- ===== src/Kernel/Clock/Account.antt =====
-- The run time of a thread in milliseconds.
use os_unibo.Base.{
  ℕ, zero, suc, ◌+◌, ◌-◌, ◌*◌, ◌/◌, ◌≤◌, ◌<◌, ◌≡◌, Ptr, some, ltb, if◌then◌else◌, ◌==◌, inl, inr,
  arith, Bool-cases, ap, ◌∙◌, refl,
}
use os_unibo.Mikabooq.{Mem}
use os_unibo.Kernel.Clock.{count_millis, accountant}

count_millis-rounds :
    (fuel cycles milliseconds : ℕ)
    → cycles ≤ 1000 * fuel
    → count_millis (suc fuel) cycles milliseconds ≡ some (milliseconds + (cycles + 999) / 1000)
unfolding count_millis
count_millis-rounds zero cycles ms l = ground arith
count_millis-rounds (suc fuel) cycles ms l = elim (Bool-cases (cycles == 0)) [
  | inl e ↦ rw e (ap some (ground arith))
  | inr e ↦
      let next = count_millis-rounds fuel (cycles - 1000) (ms + 1) (omega arith) in
      rw e (next ∙ ap some (ground arith))
]

-- The loop ends. A run time below 2^31 is rounded to the nearest millisecond, a half down; from
-- 2^31 up, where the conversion to `int` makes it negative, the result is 0 (C leaves the overflow of
-- the first 500 of those undefined).
pub accountant-rounds :
    (thread : Ptr) (m : Mem)
    → accountant thread m
      ≡ some (if ltb (m.run_time thread) 0x8000_0000 then (m.run_time thread + 499) / 1000 else 0)
unfolding accountant
accountant-rounds thread m = elim (Bool-cases (ltb (m.run_time thread) 0x8000_0000)) [
  | inl small ↦
      let l : m.run_time thread < 0x8000_0000 = ground arith in
      rw small (
        count_millis-rounds 2147484 (m.run_time thread - 500) 0 (omega arith)
        ∙ ap some (omega arith))
  | inr large ↦ rw large refl
]
