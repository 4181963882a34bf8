-- ===== src/Kernel/Clock/Laws.antt =====
-- The clock while nobody waits for it.
use os_unibo.Base.{
  ℕ, ◌≡◌, inl, inr, refl, Ptr, Bool, List, [], some, if◌then◌else◌, arith, Bool-cases,
}
use os_unibo.Mikabooq.{t_wait4clock}
use os_unibo.Mikabooq.Valid.{Valid, IsSchedQueue}
use os_unibo.Mikabooq.Sched.{thread_qhead-nil}
use os_unibo.Kernel.{Kernel, add_word, sub_word}
use os_unibo.Kernel.Clock.{tick_over, update_clock, wake_all, pseudoclock_tick}

-- The clock once the time has passed.
abbrev pub clocked : ℕ → Kernel → ℕ
clocked passed k =
    let clock = add_word k.pseudoclock passed in
    if tick_over clock then sub_word clock pseudoclock_tick else clock

module _ {is_head : Ptr → Bool} {q : Ptr → List Ptr} (k : Kernel) (v : Valid is_head q k.mem) where
  pub clock_is_sched : IsSchedQueue is_head k.mem t_wait4clock
  clock_is_sched = record { is = v.clock_is; place = inl (omega arith, omega arith) }

  -- With nobody waiting for the clock, `update_clock` sets the clock and nothing else.
  pub update_clock-quiet :
      (msgsend : Ptr → ℕ → Kernel → Kernel) (passed : ℕ)
      → q t_wait4clock ≡ []
      → update_clock msgsend passed k ≡ some (record k { pseudoclock = clocked passed k })
  unfolding update_clock wake_all
  update_clock-quiet msgsend passed none_waits =
      let quiet = (thread_qhead-nil v t_wait4clock clock_is_sched none_waits).1 in
      elim (Bool-cases (tick_over (add_word k.pseudoclock passed))) [
        | inl e ↦ rw (e, quiet) refl
        | inr e ↦ rw e refl
      ]
