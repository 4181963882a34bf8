-- ===== src/Ssi/Settled.antt =====
-- Where the threads stand.
use os_unibo.Base.{
  ◌-◌, ◌%◌, ◌≡◌, ◌≢◌, ◌⊎◌, Ptr, null, Bool, true, List, ◌∈◌, arith, has, Bool-cases,
}
use os_unibo.Listx.Queues.{IsLoose}
use os_unibo.Mikabooq.{Mem, readyq, t_sched, t_wait4me, t_status_ready, t_status_w4msg}
use os_unibo.Mikabooq.Layout.{ssi_thread, IsThread, IsReceiver, IsProc}
use os_unibo.Mikabooq.Valid.{Valid, IsSchedQueue}
use os_unibo.Ssi.Terminate.Resume.{queue_of}

-- `t` stands in a scheduling queue, which is not that of the threads that wait for it.
pub record Placed (is_head : Ptr → Bool) (q : Ptr → List Ptr) (m : Mem) (t : Ptr) : Type 0 where
  pub s : Ptr
  pub sched : IsSchedQueue is_head m s
  pub queued : t_sched t ∈ q s
  pub apart : s ≢ t_wait4me t

-- Every thread in use is in a scheduling queue, and no other; who stands in the queue of a thread
-- waits for a message; no status but ready and waiting occurs; and a system call manager is a thread.
pub record Settled (is_head : Ptr → Bool) (q : Ptr → List Ptr) (m : Mem) : Type 0 where
  pub placed : (t : Ptr) → IsThread t → m.t_pcb t ≢ null → Placed is_head q m t
  pub waits :
      (t a : Ptr)
      → IsThread t
      → m.t_pcb t ≢ null
      → a ∈ q (t_wait4me t)
      → m.t_status (a - t_sched 0) ≡ t_status_w4msg
  pub idle : (t : Ptr) → IsThread t → m.t_pcb t ≡ null → IsLoose is_head q (t_sched t)
  pub runnable :
      (t : Ptr)
      → IsThread t
      → m.t_pcb t ≢ null
      → (m.t_status t ≡ t_status_ready) ⊎ (m.t_status t ≡ t_status_w4msg)
  pub mgrs : (p : Ptr) → IsProc p → (m.sys_mgr p ≡ null) ⊎ IsReceiver (m.sys_mgr p)

-- A change that leaves the scheduling queues and the fields of the threads alone, and brings no
-- thread into another list.
pub Settled-frame :
    {is_head : Ptr → Bool} {q q' : Ptr → List Ptr} {m m' : Mem}
    → Valid is_head q m
    → Settled is_head q m
    → m'.t_pcb ≡ m.t_pcb
    → m'.t_status ≡ m.t_status
    → ((s : Ptr) → IsSchedQueue is_head m s → q' s ≡ q s)
    → ((h a : Ptr) → is_head h ≡ true → a % 16 ≡ 5 → a ∈ q' h → a ∈ q h)
    → ((p : Ptr) → IsProc p → (m'.sys_mgr p ≡ null) ⊎ IsReceiver (m'.sys_mgr p))
    → Settled is_head q' m'
Settled-frame {q} {q'} v settled pcbs statuses kept came mgrs = record {
  placed = λ t it used.
      let was = settled.placed t it (rw pcbs at used) in
      record {
        s = was.s;
        sched = record { is = was.sched.is; place = rw pcbs was.sched.place };
        queued = rw (kept was.s was.sched) was.queued;
        apart = was.apart;
      };
  waits = λ t a it used i.
      let before = rw pcbs at used in
      rw statuses
        (settled.waits t a it before (rw (kept (t_wait4me t) (queue_of t it v before)) at i));
  idle = λ t it unused.
      let was = settled.idle t it (rw pcbs at unused) in
      record {
        not_head = was.not_head;
        not_in = λ h ih. ground (
          arith,
          was.not_in h ih,
          came h (t_sched t) ih,
          it,
          Bool-cases (has (t_sched t) (q' h)),
        );
      };
  runnable = λ t it used. rw statuses (settled.runnable t it (rw pcbs at used));
  mgrs = mgrs;
}

-- The SSI, which is no thread of the pool, joins or leaves the ready queue.
pub Settled-ssi :
    {is_head : Ptr → Bool} {q q' : Ptr → List Ptr} {m m' : Mem}
    → Valid is_head q m
    → Settled is_head q m
    → m'.t_pcb ≡ m.t_pcb
    → m'.t_status ≡ m.t_status
    → m'.sys_mgr ≡ m.sys_mgr
    → ((h : Ptr) → h ≢ readyq → q' h ≡ q h)
    → ((a : Ptr) → a ≢ t_sched ssi_thread → has a (q' readyq) ≡ has a (q readyq))
    → Settled is_head q' m'
Settled-ssi {q} {q'} v settled pcbs statuses mgrs others ready = record {
  placed = λ t it used.
      let was = settled.placed t it (rw pcbs at used) in
      record {
        s = was.s;
        sched = record { is = was.sched.is; place = rw pcbs was.sched.place };
        queued = ground (arith, was.queued, others was.s, ready (t_sched t), it);
        apart = was.apart;
      };
  waits = λ t a it used i. rw statuses (
      settled.waits t a it (rw pcbs at used)
        (rw (others (t_wait4me t) (λ e. omega (arith, it))) at i));
  idle = λ t it unused.
      let was = settled.idle t it (rw pcbs at unused) in
      record {
        not_head = was.not_head;
        not_in = λ h ih. ground (arith, was.not_in h ih, others h, ready (t_sched t), it);
      };
  runnable = λ t it used. rw statuses (settled.runnable t it (rw pcbs at used));
  mgrs = λ p ip. rw mgrs (settled.mgrs p ip);
}
