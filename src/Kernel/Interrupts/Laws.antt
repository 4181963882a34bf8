-- ===== src/Kernel/Interrupts/Laws.antt =====
-- The interval timer makes the threads take turns.
use os_unibo.Base.{
  ◌≡◌, ◌≢◌, inl, ap, refl, Ptr, null, update, Bool, false, List, [], ◌∷◌, ◌++◌, ◌==◌, ℕ, arith,
}
use os_unibo.Mikabooq.{readyq, t_wait4clock, t_sched}
use os_unibo.Mikabooq.Thread.{thread_enqueue}
use os_unibo.Mikabooq.Layout.{IsReceiver}
use os_unibo.Mikabooq.Valid.{SameTables-fields, Valid, Valid-fields}
use os_unibo.Mikabooq.Sched.{thread_enqueue-Valid}
use os_unibo.Listx.Queues.{IsLoose}
use os_unibo.Kernel.{Kernel, add_word}
use os_unibo.Kernel.Clock.Laws.{clocked, update_clock-quiet}
use os_unibo.Kernel.Scheduler.Laws.{Runs, scheduler-Runs}
use os_unibo.Kernel.Interrupts.{preempt, schedule_after, interval_timer_h}

module _ {is_head : Ptr → Bool} {q : Ptr → List Ptr} (k : Kernel) (v : Valid is_head q k.mem)
    (running : IsReceiver k.current_thread)
    (loose : IsLoose is_head q (t_sched k.current_thread)) where
  abbrev pub queued : Ptr → List Ptr
  queued = update q readyq (q readyq ++ t_sched k.current_thread ∷ [])

  saved : Valid is_head q (record (k.mem) {
    t_s = update k.mem.t_s k.current_thread k.int_old;
    run_time =
        update k.mem.run_time k.current_thread
          (add_word (k.mem.run_time k.current_thread) k.clock_per_timeslice);
  })
  saved = Valid-fields _ v (SameTables-fields refl refl refl refl) refl

  -- The running thread joins the ready queue at its end.
  pub preempt-Valid : Valid is_head queued (preempt k).mem
  unfolding preempt
  preempt-Valid =
      let real : (k.current_thread == null) ≡ false = ground (arith, running) in
      rw real (
        thread_enqueue-Valid saved readyq
          (record { is = v.readyq_is; place = inl (omega arith, omega arith) }) k.current_thread
          running loose)

  not_clock : t_sched k.current_thread ≢ t_wait4clock
  not_clock = λ e. ground (arith, running)

  -- The first thread of the queue so extended runs.
  pub timer-Runs :
      (msgsend : Ptr → ℕ → Kernel → Kernel)
      → q t_wait4clock ≡ []
      → (a : Ptr) (rest : List Ptr) → q readyq ++ t_sched k.current_thread ∷ [] ≡ a ∷ rest
      → Runs is_head queued
          (record (preempt k) { pseudoclock = clocked (preempt k).clock_per_timeslice (preempt k) })
          a
          rest
          (interval_timer_h msgsend k)
  unfolding interval_timer_h schedule_after
  timer-Runs msgsend none_waits a rest e =
      rw
        (update_clock-quiet (preempt k) preempt-Valid msgsend (preempt k).clock_per_timeslice
          (ground arith))
        (scheduler-Runs
          (record (preempt k) { pseudoclock = clocked (preempt k).clock_per_timeslice (preempt k) })
          preempt-Valid a rest (ground arith))

  -- What a preemption changes: the registers and the run time of the running thread, and links.
  preempt-frame : preempt k ≡ record k {
    mem = record (k.mem) {
      links = (preempt k).mem.links;
      t_s = update k.mem.t_s k.current_thread k.int_old;
      run_time =
          update k.mem.run_time k.current_thread
            (add_word (k.mem.run_time k.current_thread) k.clock_per_timeslice);
    };
  }
  unfolding preempt thread_enqueue
  preempt-frame =
      let real : (k.current_thread == null) ≡ false = ground (arith, running) in rw real refl

  -- At the end of a time slice in which nobody waits for the clock the running thread goes to the
  -- end of the ready queue, its registers are those that the interrupt saved, and its run time has
  -- grown by a time slice; nothing else but the clock changes, and the first thread of the queue so
  -- extended runs: the threads take turns.
  pub interval_timer_h-Runs :
      (msgsend : Ptr → ℕ → Kernel → Kernel)
      → q t_wait4clock ≡ []
      → (a : Ptr) (rest : List Ptr) → q readyq ++ t_sched k.current_thread ∷ [] ≡ a ∷ rest
      → (k' : Kernel) × (k' ≡ record k {
        mem = record (k.mem) {
          links = k'.mem.links;
          t_s = update k.mem.t_s k.current_thread k.int_old;
          run_time =
              update k.mem.run_time k.current_thread
                (add_word (k.mem.run_time k.current_thread) k.clock_per_timeslice);
        };
        pseudoclock = clocked k.clock_per_timeslice k;
      })
        × Runs is_head queued k' a rest (interval_timer_h msgsend k)
  interval_timer_h-Runs msgsend none_waits a rest e = (
    record (preempt k) { pseudoclock = clocked (preempt k).clock_per_timeslice (preempt k) },
    ap {A = Kernel} {B = Kernel} (λ x. record x { pseudoclock = clocked x.clock_per_timeslice x })
        preempt-frame,
    timer-Runs msgsend none_waits a rest e,
  )
