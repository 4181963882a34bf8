-- ===== src/Ssi/Terminate/Laws.antt =====
-- `__terminate_thread_s` ends, and what it leaves.
use os_unibo.Base.{
  ◌+◌, ◌<◌, ◌≤◌, ◌≡◌, ◌≢◌, refl, ◌∙◌, Ptr, null, Bool, List, [], some, ◌==◌, arith, length, inl,
  inr, ◌∈◌, length-le-room, has-append, Bool-cases, pos,
}
use os_unibo.Mikabooq.{Mem, readyq, max_thread, t_sched, t_msgq, t_wait4me, thread}
use os_unibo.Mikabooq.Layout.{IsThread, IsReceiver}
use os_unibo.Mikabooq.Thread.{thread_free}
use os_unibo.Mikabooq.Thread.Free.{Freed, thread_free-Freed}
use os_unibo.Mikabooq.Valid.{Valid, IsSchedQueue}
use os_unibo.Mikabooq.Tables.{freed-Valid}
use os_unibo.Kernel.{Kernel, sub_word}
use os_unibo.Ssi.Terminate.{terminate_one, after_drop, free_counted}
use os_unibo.Ssi.Terminate.Drop.{Dropped, drop_all}
use os_unibo.Ssi.Terminate.Resume.{AllWait, Woken, queue_of, resume_waiting-Woken}

module _ {is_head : Ptr → Bool} {q : Ptr → List Ptr} (m : Mem) (v : Valid is_head q m) (t : Ptr)
    (it : IsThread t) (in_use : m.t_pcb t ≢ null) where
  -- Each thread, and the SSI, waits in one queue at most.
  waiting-le-max_thread : length (q (t_wait4me t)) ≤ max_thread + 1
  waiting-le-max_thread =
      length-le-room (t_sched (thread 0)) (max_thread + 1) (q (t_wait4me t))
        (v.msgs.linked.ring (t_wait4me t) (v.threads.wait4me_is t it)).distinct
        (λ a i.
          let link = v.sched_entry (t_wait4me t) a (queue_of t it v in_use) i in
          omega (arith, link))

module _ {is_head : Ptr → Bool} {q : Ptr → List Ptr} (k : Kernel) (v : Valid is_head q k.mem)
    (t : Ptr) (it : IsThread t) (in_use : k.mem.t_pcb t ≢ null) (waits : AllWait q k t) (s : Ptr)
    (sched : IsSchedQueue is_head k.mem s) (apart : s ≢ t_wait4me t)
    (queued : t_sched t ∈ q s) where
  is_receiver : IsReceiver t
  is_receiver = record { aligned = it.aligned; from = it.from; below = omega (arith, it) }

  -- After the messages are dropped, the same threads wait.
  module _ (m1 : Mem) (dropped : Dropped is_head q k.mem t m1) where
    awaited_kept : dropped.q' (t_wait4me t) ≡ q (t_wait4me t)
    awaited_kept = dropped.others (t_wait4me t) (λ e. ground (arith, it)) (λ e. ground (arith, it))

    still_wait : AllWait dropped.q' (record k { mem = m1 }) t
    still_wait a i = rw dropped.statuses (waits a (rw awaited_kept at i))

    enough : length (dropped.q' (t_wait4me t)) < max_thread + 2
    enough = rw awaited_kept (omega (arith, waiting-le-max_thread k.mem v t it in_use))

    module _ (k2 : Kernel) (woken : Woken is_head dropped.q' (record k { mem = m1 }) t k2) where
      same_pcbs : k2.mem.t_pcb ≡ k.mem.t_pcb
      same_pcbs = woken.pcbs ∙ dropped.pcbs

      no_msgs : woken.q' (t_msgq t) ≡ []
      no_msgs =
          woken.others (t_msgq t) (λ e. ground (arith, it)) (λ e. ground (arith, it))
          ∙ dropped.empty

      sched_kept : dropped.q' s ≡ q s
      sched_kept =
          dropped.others s (λ e. ground (arith, sched.place)) (λ e. ground (arith, sched.place, it))

      still_queued : t_sched t ∈ woken.q' s
      still_queued = elim (Bool-cases (s == readyq)) [
        | inl hit ↦ ground (
          arith,
          woken.ready,
          sched_kept,
          queued,
          has-append (t_sched t) (dropped.q' readyq) (dropped.q' (t_wait4me t)),
        )
        | inr miss ↦ ground (arith, woken.others s, sched_kept, apart, queued)
      ]

      still_sched : IsSchedQueue is_head k2.mem s
      still_sched = record { is = sched.is; place = rw same_pcbs sched.place }

      freed :
          let (m', code) = thread_free t k2.mem in
          (code ≡ pos 0) × Freed is_head woken.q' k2.mem t s m'
      freed =
          thread_free-Freed woken.valid.threads t it (rw same_pcbs in_use) no_msgs woken.empty s
            sched.is still_queued

  -- Provided that whoever stands in the thread's queue waits for a message, and that the thread
  -- itself stands in another scheduling queue: its messages are dropped, those who wait for it are
  -- woken with an error, its descriptor is freed, the count of threads goes down by one, and the
  -- tables are sound. The loops end within their bounds.
  pub terminate_one-Freed :
      (m1 : Mem) × (dropped : Dropped is_head q k.mem t m1) × (k2 : Kernel) × (woken : Woken is_head
        dropped.q'
        (record k { mem = m1 })
        t
        k2)
      × (freed : Freed is_head woken.q' k2.mem t s (thread_free t k2.mem).0) × Valid is_head
          freed.q'
          (thread_free t k2.mem).0
      × (terminate_one t k
          ≡ some (record k2 {
            mem = (thread_free t k2.mem).0;
            thread_count = sub_word k.thread_count 1;
          }))
  unfolding terminate_one after_drop free_counted
  terminate_one-Freed =
      let (m1, ran, dropped) = drop_all t is_receiver v (λ _. in_use) in
      let (k2, woke, woken) =
        resume_waiting-Woken t it (max_thread + 2) (record k { mem = m1 }) dropped.valid
          (rw (dropped.pcbs) in_use) (still_wait m1 dropped) (enough m1 dropped) in
      let gone = (freed m1 dropped k2 woken).1 in
      (
        m1,
        dropped,
        k2,
        woken,
        gone,
        freed-Valid woken.valid _ t s it (rw (same_pcbs m1 dropped k2 woken) in_use)
            (still_sched m1 dropped k2 woken) gone,
        rw (ran, woke, woken.count) refl,
      )
