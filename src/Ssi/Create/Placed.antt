-- ===== src/Ssi/Create/Placed.antt =====
-- A new thread joins the ready queue and leaves the other threads in their queues.
use os_unibo.Base.{
  ◌-◌, ◌≡◌, ◌≢◌, inl, inr, Ptr, null, Bool, List, [], ◌∷◌, ◌∈◌, arith, has, has-append, Bool-cases,
  ◌==◌,
}
use os_unibo.Listx.Queues.{IsLoose}
use os_unibo.Mikabooq.{Cpu, readyq, thread_h, t_sched, t_wait4me, t_status_w4msg}
use os_unibo.Mikabooq.Layout.{IsThread, IsProc}
use os_unibo.Mikabooq.Proc.Valid.{IsLive}
use os_unibo.Mikabooq.Valid.{Valid, IsSchedQueue}
use os_unibo.Kernel.{Kernel}
use os_unibo.Ssi.Settled.{Settled, Placed}
use os_unibo.Ssi.Terminate.Resume.{queue_of}
use os_unibo.Ssi.Create.{create_thread_in}
use os_unibo.Ssi.Create.Laws.{Created, create_thread_in-Created}

module _ {is_head : Ptr → Bool} {q : Ptr → List Ptr} (k : Kernel) (v : Valid is_head q k.mem)
    (settled : Settled is_head q k.mem) (initial_state : Cpu) (proc : Ptr) (ip : IsProc proc) where
  module _ (k' : Kernel) (t : Ptr) (new : Created is_head q k initial_state proc k' t) where
    -- The new thread stood in no list.
    was-IsLoose : IsLoose is_head q (t_sched t)
    was-IsLoose = settled.idle t new.is_thread new.was_free

    sched_after : (s a : Ptr) → IsSchedQueue is_head k.mem s → a ∈ q s → a ∈ new.q' s
    sched_after s a sched i =
        ground (
          arith,
          new.others s,
          new.ready,
          has-append a (q readyq) (t_sched t ∷ []),
          sched.place,
          ip,
        )

    placed' : (y : Ptr) → IsThread y → k'.mem.t_pcb y ≢ null → Placed is_head new.q' k'.mem y
    placed' y iy used = elim (Bool-cases (y == t)) [
      | inl hit ↦ record {
        s = readyq;
        sched = record { is = v.readyq_is; place = inl (omega arith, omega arith) };
        queued = ground (arith, new.ready, has-append (t_sched t) (q readyq) (t_sched t ∷ []));
        apart = λ e. omega (arith, iy);
      }
      | inr miss ↦
          let was = settled.placed y iy (ground (arith, new.pcbs)) in
          record {
            s = was.s;
            sched = record {
              is = was.sched.is;
              place = ground (arith, was.sched.place, new.pcbs, ip);
            };
            queued = sched_after was.s (t_sched y) was.sched was.queued;
            apart = was.apart;
          }
    ]

    waits' :
        (x a : Ptr)
        → IsThread x
        → k'.mem.t_pcb x ≢ null
        → a ∈ new.q' (t_wait4me x)
        → k'.mem.t_status (a - t_sched 0) ≡ t_status_w4msg
    waits' x a ix used i =
        let before : a ∈ q (t_wait4me x) =
          rw
            (new.others (t_wait4me x) (λ e. omega (arith, ix)) (λ e. omega (arith, ix))
              (λ e. omega (arith, ix, ip)))
            at i in
        elim (Bool-cases (x == t)) [
          | inl hit ↦ absurd (ground (arith, before, v.threads.not_awaited x ix, new.was_free))
          | inr miss ↦
              let was : k.mem.t_pcb x ≢ null = ground (arith, new.pcbs) in
              ground (
                arith,
                new.statuses,
                settled.waits x a ix was before,
                v.sched_entry (t_wait4me x) a (queue_of x ix v was) before,
                was-IsLoose.not_in (t_wait4me x) (v.threads.wait4me_is x ix),
              )
        ]

    idle' : (y : Ptr) → IsThread y → k'.mem.t_pcb y ≡ null → IsLoose is_head new.q' (t_sched y)
    idle' y iy unused =
        let other : y ≢ t = ground (arith, new.pcbs, ip) in
        let was = settled.idle y iy (ground (arith, new.pcbs)) in
        record {
          not_head = was.not_head;
          not_in = λ h ih. ground (
            arith,
            iy,
            was.not_in h ih,
            new.others h,
            new.ready,
            has-append (t_sched y) (q readyq) (t_sched t ∷ []),
            new.valid.threads.free_entry (t_sched y),
            new.valid.threads.thread_entry proc (t_sched y) ip,
            Bool-cases (has (t_sched y) (new.q' h)),
          );
        }

    Created-Settled : Settled is_head new.q' k'.mem
    Created-Settled = record {
      placed = placed';
      waits = waits';
      idle = idle';
      runnable = λ y iy used.
          ground (arith, new.statuses, new.pcbs, settled.runnable y iy, Bool-cases (y == t));
      mgrs = λ p ix. rw new.sys_mgrs (settled.mgrs p ix);
    }

  -- Given a live process and a free descriptor, and that every thread in use is in a scheduling queue
  -- and no other, a thread of the process is created, and that is so afterwards.
  pub create_thread_in-Settled :
      IsLive k.mem proc
      → q thread_h ≢ []
      → let (k', t) = create_thread_in initial_state proc k in
        (new : Created is_head q k initial_state proc k' t) × Settled is_head new.q' k'.mem
  create_thread_in-Settled live free =
      let new =
        create_thread_in-Created k v initial_state proc ip live free
          (λ t it unused. settled.idle t it unused) in
      (new, Created-Settled _ _ new)
