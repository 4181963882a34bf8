-- ===== src/Ssi/Tree/Others.antt =====
-- Where the other threads stand after a thread has ended.
use os_unibo.Base.{
  ◌≡◌, ◌≢◌, inl, inr, ◌∙◌, Ptr, null, update, Bool, List, ◌==◌, ◌∈◌, arith, has-erase, has-append,
  Bool-cases, has,
}
use os_unibo.Mikabooq.{Mem, readyq, t_sched, t_wait4me}
use os_unibo.Mikabooq.Layout.{IsThread, IsProc}
use os_unibo.Mikabooq.Thread.{thread_free}
use os_unibo.Mikabooq.Thread.Free.{Freed}
use os_unibo.Mikabooq.Valid.{Valid, IsSchedQueue}
use os_unibo.Kernel.{Kernel}
use os_unibo.Ssi.Settled.{Placed, Settled}
use os_unibo.Ssi.Terminate.Drop.{Dropped}
use os_unibo.Ssi.Terminate.Resume.{Woken}

module _ {is_head : Ptr → Bool} {q : Ptr → List Ptr} (k : Kernel) (v : Valid is_head q k.mem)
    (settled : Settled is_head q k.mem) (t : Ptr) (it : IsThread t)
    (in_use : k.mem.t_pcb t ≢ null) where
  abbrev pub own : Placed is_head q k.mem t
  own = settled.placed t it in_use

  pub owner : IsProc (k.mem.t_pcb t)
  owner = (v.threads.owner_live t it in_use).0

  module _ (m1 : Mem) (dropped : Dropped is_head q k.mem t m1) (k2 : Kernel)
      (woken : Woken is_head dropped.q' (record k { mem = m1 }) t k2)
      (freed : Freed is_head woken.q' k2.mem t own.s (thread_free t k2.mem).0) where
    abbrev pub m' : Mem
    m' = (thread_free t k2.mem).0

    pub pcbs2 : k2.mem.t_pcb ≡ k.mem.t_pcb
    pcbs2 = woken.pcbs ∙ dropped.pcbs

    pub pcbs' : m'.t_pcb ≡ update k.mem.t_pcb t null
    pcbs' = ground (arith, freed.pcb, pcbs2)

    -- A queue of threads, but for that of `t`, before `t` is freed.
    pub woken_sched :
        (s a : Ptr) → IsSchedQueue is_head k.mem s → s ≢ t_wait4me t → a ∈ q s → a ∈ woken.q' s
    woken_sched s a sched other i =
        let kept : dropped.q' s ≡ q s =
          dropped.others s (λ e. ground (arith, sched.place))
            (λ e. ground (arith, sched.place, it)) in
        ground (
          arith,
          kept,
          woken.others s,
          woken.ready,
          has-append a (dropped.q' readyq) (dropped.q' (t_wait4me t)),
        )

    pub awaited : dropped.q' (t_wait4me t) ≡ q (t_wait4me t)
    awaited = dropped.others (t_wait4me t) (λ e. omega (arith, it)) (λ e. omega arith)

    woken_ready : (a : Ptr) → a ∈ q (t_wait4me t) → a ∈ woken.q' readyq
    woken_ready a i =
        ground
          (arith, awaited, woken.ready, has-append a (dropped.q' readyq) (dropped.q' (t_wait4me t)))

    -- It keeps its entries when `t` is freed.
    freed_sched :
        (s a : Ptr)
        → IsSchedQueue is_head k2.mem s
        → a ≢ t_sched t
        → has a (freed.q' s) ≡ has a (woken.q' s)
    freed_sched s a sched ne = ground (
      arith,
      freed.others s,
      freed.sched,
      has-erase a (t_sched t) (woken.q' own.s)
          (woken.valid.msgs.linked.ring own.s own.sched.is).distinct,
      sched.place,
      pcbs2,
      owner,
    )

    -- A queue of threads of the later memory.
    later : (s : Ptr) → IsSchedQueue is_head k.mem s → s ≢ t_wait4me t → IsSchedQueue is_head m' s
    later s sched other = record {
      is = sched.is;
      place = ground (arith, sched.place, pcbs', other, it);
    }

    stays :
        (y s : Ptr)
        → IsThread y
        → y ≢ t
        → IsSchedQueue is_head k.mem s
        → s ≢ t_wait4me t
        → t_sched y ∈ woken.q' s
        → s ≢ t_wait4me y
        → Placed is_head freed.q' m' y
    stays y s iy ne sched other i apart = record {
      s = s;
      sched = later s sched other;
      queued = ground (
        arith,
        i,
        freed_sched s (t_sched y) (record { is = sched.is; place = rw pcbs2 sched.place }),
        iy,
        it,
      );
      apart = apart;
    }

    -- A thread that waited for `t` is ready, and the others are where they were.
    pub placed' : (y : Ptr) → IsThread y → m'.t_pcb y ≢ null → Placed is_head freed.q' m' y
    placed' y iy used =
        let ne : y ≢ t = ground (arith, pcbs') in
        let was = settled.placed y iy (ground (arith, pcbs')) in
        elim (Bool-cases (was.s == t_wait4me t)) [
          | inl hit ↦
              stays y readyq iy ne
                (record { is = v.readyq_is; place = inl (omega arith, omega arith) })
                (λ e. omega (arith, it)) (woken_ready (t_sched y) (ground (arith, was.queued)))
                (λ e. omega (arith, iy))
          | inr miss ↦
              stays y was.s iy ne was.sched (ground arith)
                (woken_sched was.s (t_sched y) was.sched (ground arith) was.queued) was.apart
        ]
