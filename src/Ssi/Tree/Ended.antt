-- ===== src/Ssi/Tree/Ended.antt =====
-- A thread that ends leaves the others in their queues.
use os_unibo.Listx.Queues.{IsLoose}
use os_unibo.Base.{
  ◌-◌, ◌%◌, true, ◌≡◌, ◌≢◌, ◌∉◌, ◌⊎◌, inl, inr, refl, ◌∙◌, Ptr, null, update, Bool, List, some,
  ◌==◌, ◌∈◌, arith, erase, has-erase, has-append, Bool-cases, has,
}
use os_unibo.Mikabooq.{
  Mem, readyq, t_sched, t_next, t_wait4me, p_threads, t_status_ready, t_status_w4msg,
}
use os_unibo.Mikabooq.Layout.{IsThread, IsProc}
use os_unibo.Mikabooq.Thread.{thread_free}
use os_unibo.Mikabooq.Thread.Free.{Freed}
use os_unibo.Mikabooq.Valid.{Valid}
use os_unibo.Kernel.{Kernel, sub_word}
use os_unibo.Ssi.Settled.{Placed, Settled}
use os_unibo.Ssi.Terminate.{terminate_one}
use os_unibo.Ssi.Terminate.Drop.{Dropped}
use os_unibo.Ssi.Terminate.Resume.{Woken, queue_of}
use os_unibo.Ssi.Terminate.Laws.{terminate_one-Freed}
use os_unibo.Ssi.Tree.Others

-- `t` has ended: it is out of its process, and the tables are sound and settled.
pub record Ended (is_head : Ptr → Bool) (q : Ptr → List Ptr) (k : Kernel) (t : Ptr) (k' : Kernel)
    : Type 0 where
  pub q' : Ptr → List Ptr
  pub valid : Valid is_head q' k'.mem
  pub settled : Settled is_head q' k'.mem
  pub pcbs : k'.mem.t_pcb ≡ update k.mem.t_pcb t null
  pub threads : q' (p_threads (k.mem.t_pcb t)) ≡ erase (t_next t) (q (p_threads (k.mem.t_pcb t)))
  pub parents : k'.mem.p_parent ≡ k.mem.p_parent
  pub count : k'.thread_count ≡ sub_word k.thread_count 1

module _ {is_head : Ptr → Bool} {q : Ptr → List Ptr} (k : Kernel) (v : Valid is_head q k.mem)
    (settled : Settled is_head q k.mem) (t : Ptr) (it : IsThread t)
    (in_use : k.mem.t_pcb t ≢ null) where
  abbrev own : Placed is_head q k.mem t
  own = Others.own k v settled t it in_use

  owner : IsProc (k.mem.t_pcb t)
  owner = Others.owner k v settled t it in_use

  module _ (m1 : Mem) (dropped : Dropped is_head q k.mem t m1) (k2 : Kernel)
      (woken : Woken is_head dropped.q' (record k { mem = m1 }) t k2)
      (freed : Freed is_head woken.q' k2.mem t own.s (thread_free t k2.mem).0) where
    abbrev m' : Mem
    m' = (thread_free t k2.mem).0

    pcbs2 : k2.mem.t_pcb ≡ k.mem.t_pcb
    pcbs2 = Others.pcbs2 k v settled t it in_use m1 dropped k2 woken freed

    pcbs' : m'.t_pcb ≡ update k.mem.t_pcb t null
    pcbs' = Others.pcbs' k v settled t it in_use m1 dropped k2 woken freed

    awaited : dropped.q' (t_wait4me t) ≡ q (t_wait4me t)
    awaited = Others.awaited k v settled t it in_use m1 dropped k2 woken freed

    -- Who waits for a thread other than `t` did so before.
    waited :
        (x a : Ptr)
        → IsThread x
        → x ≢ t
        → a ∈ freed.q' (t_wait4me x)
        → (a ∈ q (t_wait4me x)) × (a ≢ t_sched t)
    waited x a ix ne i =
        let kept : woken.q' (t_wait4me x) ≡ q (t_wait4me x) =
          woken.others (t_wait4me x) (λ e. ne (omega arith)) (λ e. omega (arith, ix))
          ∙ dropped.others (t_wait4me x) (λ e. omega (arith, ix)) (λ e. omega (arith, ix, it)) in
        elim (Bool-cases (t_wait4me x == own.s)) [
          | inl hit ↦ ground (
            arith,
            freed.sched,
            kept,
            has-erase a (t_sched t) (woken.q' own.s)
                (woken.valid.msgs.linked.ring own.s own.sched.is).distinct,
          )
          | inr miss ↦
              let still : freed.q' (t_wait4me x) ≡ woken.q' (t_wait4me x) =
                freed.others (t_wait4me x) (λ e. omega (arith, ix))
                  (λ e. ground (arith, pcbs2, owner)) (ground arith) in
              let before : a ∈ q (t_wait4me x) = rw (still, kept) at i in
              (
                before,
                λ same. ground (
                  arith,
                  v.msgs.linked.unique (t_wait4me x) own.s a (v.threads.wait4me_is x ix)
                      own.sched.is before,
                  own.queued,
                ),
              )
        ]

    waits' :
        (x a : Ptr)
        → IsThread x
        → m'.t_pcb x ≢ null
        → a ∈ freed.q' (t_wait4me x)
        → m'.t_status (a - t_sched 0) ≡ t_status_w4msg
    waits' x a ix used i =
        let ne : x ≢ t = ground (arith, pcbs') in
        let (before, other) = waited x a ix ne i in
        let waiting = settled.waits x a ix (ground (arith, pcbs')) before in
        let link = v.sched_entry (t_wait4me x) a (queue_of x ix v (ground (arith, pcbs'))) before in
        let out : t_sched (a - t_sched 0) ∉ dropped.q' (t_wait4me t) = ground (
          arith,
          awaited,
          link,
          Bool-cases (has a (q (t_wait4me t))),
          v.msgs.linked.unique (t_wait4me x) (t_wait4me t) a (v.threads.wait4me_is x ix)
              (v.threads.wait4me_is t it) before,
        ) in
        ground (arith, freed.status, link, (woken.kept (a - t_sched 0) out).2, dropped.statuses)

    -- A scheduling field that is in a list afterwards was in one before, and is not that of `t`.
    came_woken :
        (h a : Ptr)
        → is_head h ≡ true
        → a % 16 ≡ 5
        → a ∈ freed.q' h
        → (a ∈ woken.q' h) × (a ≢ t_sched t)
    came_woken h a ih aligned i = ground (
      arith,
      freed.valid.free_entry a,
      freed.valid.thread_entry (k2.mem.t_pcb t) a,
      pcbs2,
      owner,
      freed.others h,
      freed.sched,
      has-erase a (t_sched t) (woken.q' own.s)
          (woken.valid.msgs.linked.ring own.s own.sched.is).distinct,
      woken.valid.msgs.linked.unique h own.s a ih own.sched.is,
      Others.woken_sched k v settled t it in_use m1 dropped k2 woken freed own.s (t_sched t)
          own.sched own.apart own.queued,
    )

    came :
        (h a : Ptr)
        → is_head h ≡ true
        → a % 16 ≡ 5
        → a ∈ freed.q' h
        → (a ∈ q h) ⊎ (a ∈ q (t_wait4me t))
    came h a ih aligned i = ground (
      arith,
      (came_woken h a ih aligned i).0,
      woken.others h,
      woken.empty,
      woken.ready,
      has-append a (dropped.q' readyq) (dropped.q' (t_wait4me t)),
      awaited,
      dropped.valid.msgs.free_entry a,
      dropped.empty,
      dropped.others h,
    )

    idle' : (y : Ptr) → IsThread y → m'.t_pcb y ≡ null → IsLoose is_head freed.q' (t_sched y)
    idle' y iy unused = elim (Bool-cases (y == t)) [
      | inl hit ↦ record {
        not_head = ground (arith, v.msgs.linked.entry own.s (t_sched t) own.sched.is own.queued);
        not_in = λ h ih.
            ground
              (arith, iy, came_woken h (t_sched y) ih, Bool-cases (has (t_sched y) (freed.q' h)));
      }
      | inr miss ↦
          let was = settled.idle y iy (ground (arith, pcbs')) in
          record {
            not_head = was.not_head;
            not_in = λ h ih. ground (
              arith,
              iy,
              was.not_in h ih,
              was.not_in (t_wait4me t) (v.threads.wait4me_is t it),
              came h (t_sched y) ih,
              Bool-cases (has (t_sched y) (freed.q' h)),
            );
          }
    ]

    runnable' :
        (y : Ptr)
        → IsThread y
        → m'.t_pcb y ≢ null
        → (m'.t_status y ≡ t_status_ready) ⊎ (m'.t_status y ≡ t_status_w4msg)
    runnable' y iy used =
        let ne : y ≢ t = ground (arith, pcbs') in
        let before = settled.runnable y iy (ground (arith, pcbs')) in
        elim (Bool-cases (has (t_sched y) (dropped.q' (t_wait4me t)))) [
          | inl hit ↦ ground (arith, freed.status, (woken.failed (t_sched y) hit).2)
          | inr miss ↦ ground (arith, freed.status, (woken.kept y miss).2, dropped.statuses, before)
        ]

    settled' : Settled is_head freed.q' m'
    settled' = record {
      placed = Others.placed' k v settled t it in_use m1 dropped k2 woken freed;
      waits = waits';
      idle = idle';
      runnable = runnable';
      mgrs = λ p ip. rw (freed.sys_mgrs, woken.sys_mgrs, dropped.sys_mgrs) (settled.mgrs p ip);
    }

    threads' :
        freed.q' (p_threads (k.mem.t_pcb t)) ≡ erase (t_next t) (q (p_threads (k.mem.t_pcb t)))
    threads' = ground (
      arith,
      freed.threads,
      pcbs2,
      owner,
      woken.others (p_threads (k.mem.t_pcb t)),
      dropped.others (p_threads (k.mem.t_pcb t)),
      it,
    )

  -- A thread that ends leaves the others settled.
  pub terminate_one-Ended : (k' : Kernel) × (terminate_one t k ≡ some k') × Ended is_head q k t k'
  terminate_one-Ended =
      let (m1, dropped, k2, woken, freed, valid, run) =
        terminate_one-Freed k v t it in_use (λ a i. settled.waits t a it in_use i) own.s own.sched
          own.apart own.queued in
      (
        _,
        run,
        record {
          q' = freed.q';
          valid = valid;
          settled = settled' m1 dropped k2 woken freed;
          pcbs = pcbs' m1 dropped k2 woken freed;
          threads = threads' m1 dropped k2 woken freed;
          parents = freed.parents ∙ woken.parents ∙ dropped.parents;
          count = refl;
        },
      )
