-- ===== src/Kernel/Scheduler/Laws.antt =====
-- What the scheduler decides.
use os_unibo.Base.{
  ◌-◌, ◌≡◌, inl, refl, Ptr, null, update, Bool, false, List, [], ◌∷◌, ◌==◌, if◌then◌else◌, arith,
}
use os_unibo.Mikabooq.{readyq, t_sched}
use os_unibo.Mikabooq.Layout.{IsSchedLink}
use os_unibo.Mikabooq.Valid.{Valid, IsSchedQueue}
use os_unibo.Mikabooq.Sched.{thread_qhead-nil, thread_dequeue-run, thread_dequeue-cons}
use os_unibo.Listx.{Links, list_del}
use os_unibo.Listx.Queues.{IsLoose}
use os_unibo.Kernel.{Kernel, Outcome, loads, halts, panics, waits}
use os_unibo.Kernel.Scheduler.{scheduler}

-- The processor runs the first thread of `xs`, which has left the ready queue; the other threads
-- keep their order, the time slice is full again, and the tables are sound.
pub record Runs (is_head : Ptr → Bool) (q : Ptr → List Ptr) (k : Kernel) (a : Ptr) (rest : List Ptr)
    (r : Outcome) : Type 0 where
  pub link : IsSchedLink a
  pub links' : Links
  pub outcome :
      r
      ≡ loads (k.mem.t_s (a - t_sched 0)) (record k {
        mem = record (k.mem) { links = links' };
        current_thread = a - t_sched 0;
        timer = k.clock_per_timeslice;
      })
  pub valid : Valid is_head (update q readyq rest) (record (k.mem) { links = links' })
  pub out : IsLoose is_head (update q readyq rest) a

module _ {is_head : Ptr → Bool} {q : Ptr → List Ptr} (k : Kernel) (v : Valid is_head q k.mem) where
  pub ready_is_sched : IsSchedQueue is_head k.mem readyq
  ready_is_sched = record { is = v.readyq_is; place = inl (omega arith, omega arith) }

  -- With no thread ready the system halts when one thread is left, the SSI; otherwise it panics
  -- when no thread is soft blocked, waits for an interrupt when the processor was not idle yet,
  -- and panics when it was.
  pub scheduler-idle :
      q readyq ≡ []
      → scheduler k ≡ (
          let k' = record k { current_thread = null } in
          if k.thread_count == 1
          then halts k'
          else (if k.soft_block_count == 0
              then panics k'
              else (if k.is_idle == 0
                  then waits (record k' { is_idle = 1; timer = k.clock_per_timeslice })
                  else panics k')))
  unfolding scheduler
  scheduler-idle e = rw ((thread_qhead-nil v readyq ready_is_sched e).1, scheduler)

  -- If a thread is ready, the first one runs for a full time slice, and the others stay in the ready
  -- queue in their order.
  pub scheduler-Runs :
      (a : Ptr) (rest : List Ptr) → q readyq ≡ a ∷ rest → Runs is_head q k a rest (scheduler k)
  unfolding scheduler
  scheduler-Runs a rest e =
      let run = (thread_dequeue-run v readyq ready_is_sched a rest e).0 in
      let step = thread_dequeue-cons v readyq ready_is_sched a rest e in
      let link = v.sched_entry readyq a ready_is_sched (ground arith) in
      let real : (a - t_sched 0 == null) ≡ false = ground (arith, link) in
      record {
        link = link;
        links' = list_del a k.mem.links;
        outcome = rw (run, real) refl;
        valid = rw run at step.3;
        out = step.4;
      }
