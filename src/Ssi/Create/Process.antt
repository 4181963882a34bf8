-- ===== src/Ssi/Create/Process.antt =====
-- What the creation of a process does.
use os_unibo.Base.{
  ◌-◌, ◌≡◌, ◌≢◌, inr, refl, Ptr, null, Bool, false, List, [], ◌==◌, arith, nil_of_none,
}
use os_unibo.Mikabooq.{Cpu, Mem, thread_h, p_threads, t_sched, t_next}
use os_unibo.Mikabooq.Layout.{root, proc_h, IsProc, IsThread}
use os_unibo.Mikabooq.Proc.{proc_alloc}
use os_unibo.Mikabooq.Proc.Valid.{IsLive}
use os_unibo.Mikabooq.Proc.Alloc.{Allocated, proc_alloc-Allocated}
use os_unibo.Mikabooq.Proc.Roundtrip.{SameTree, proc_delete-proc_alloc}
use os_unibo.Mikabooq.Valid.{Valid}
use os_unibo.Mikabooq.Tables.{process-Valid}
use os_unibo.Listx.Queues.{IsLoose}
use os_unibo.Kernel.{Kernel}
use os_unibo.Ssi.Create.{create_process_s, create_thread_in, get_processid_s, keep_or_delete}
use os_unibo.Ssi.Create.Laws.{Created, create_thread_in-null, create_thread_in-Created}

-- The new process of the applicant's process, and the memory in which it was allocated.
abbrev pub new_mem : Kernel → (applicant : Ptr) → Mem
new_mem k applicant = (proc_alloc (k.mem.t_pcb applicant) k.mem).0

abbrev pub new_process : Kernel → (applicant : Ptr) → Ptr
new_process k applicant = (proc_alloc (k.mem.t_pcb applicant) k.mem).1

module _ {is_head : Ptr → Bool} {q : Ptr → List Ptr} (k : Kernel) (v : Valid is_head q k.mem)
    (initial_state : Cpu) (applicant : Ptr) where
  abbrev parent : Ptr
  parent = k.mem.t_pcb applicant

  module _ (ip : IsProc parent) (live : IsLive k.mem parent) (some_free : q proc_h ≢ []) where
    allocated : Allocated is_head q k.mem parent (new_mem k applicant) (new_process k applicant)
    allocated = proc_alloc-Allocated v.procs parent ip live some_free

    threads_kept : allocated.q' thread_h ≡ q thread_h
    threads_kept = allocated.others thread_h (λ e. omega arith) (λ e. ground (arith, ip))

    real : (new_process k applicant == null) ≡ false
    real = ground (arith, allocated.is_proc)

    new_live : IsLive (new_mem k applicant) (new_process k applicant)
    new_live = inr (ground (arith, allocated.parents, ip))

    still-IsLoose :
        (t : Ptr)
        → IsLoose is_head q (t_sched t)
        → IsThread t
        → IsLoose is_head allocated.q' (t_sched t)
    still-IsLoose t was it = record {
      not_head = was.not_head;
      not_in = λ h ih. ground (
        arith,
        was.not_in h ih,
        allocated.others h,
        allocated.valid.free_entry (t_sched t),
        allocated.valid.child_entry parent (t_sched t) ip,
        it,
      );
    }

    -- Given a live process of the applicant, a free descriptor of a process and one of a thread, and
    -- that no unused thread stands in a scheduling queue, a child of that process is created with
    -- one thread, ready to run from the state that was given.
    pub create_process_s-Created :
        q thread_h ≢ []
        → ((t : Ptr) → IsThread t → k.mem.t_pcb t ≡ null → IsLoose is_head q (t_sched t))
        → (new : Allocated is_head q k.mem parent (new_mem k applicant) (new_process k applicant))
          × (let (k', t) = create_process_s initial_state applicant k in
              Created is_head new.q'
                (record k { mem = new_mem k applicant })
                initial_state
                (new_process k applicant)
                k'
                t)
    unfolding create_process_s get_processid_s keep_or_delete
    create_process_s-Created free_thread loose =
        let made =
          create_thread_in-Created (record k { mem = new_mem k applicant })
            (process-Valid v (new_mem k applicant) parent (new_process k applicant) ip allocated)
            initial_state (new_process k applicant) allocated.is_proc new_live
            (λ e. ground (arith, threads_kept, e, free_thread))
            (λ t it free. still-IsLoose t (loose t it (ground (arith, allocated.pcbs, free))) it) in
        let done : ((create_thread_in initial_state (new_process k applicant)
                (record k { mem = new_mem k applicant })).1
              == null)
            ≡ false =
          ground (arith, made.is_thread) in
        (allocated, rw (real, done) made)

    threadless : (p : Ptr) → IsProc p → p ≢ root → k.mem.p_parent p ≡ null → q (p_threads p) ≡ []
    threadless p i ne free =
        nil_of_none (q (p_threads p)) (λ a h.
          ground (arith, v.threads.thread_entry p a i h, v.threads.owner_live (a - t_next 0)))

    -- With no free descriptor of a thread NULL is returned, and the new process is deleted again:
    -- the process tree and the count of threads are as before.
    pub create_process_s-SameTree :
        q thread_h ≡ []
        → let (k', t) = create_process_s initial_state applicant k in
          (t ≡ null) × (k'.thread_count ≡ k.thread_count) × SameTree is_head q k.mem k'.mem
    unfolding create_process_s get_processid_s keep_or_delete
    create_process_s-SameTree none_free =
        rw
          (
            real,
            create_thread_in-null (record k { mem = new_mem k applicant })
                (process-Valid v (new_mem k applicant) parent (new_process k applicant) ip
                  allocated)
                initial_state (new_process k applicant)
                (inr (ground (arith, threads_kept, none_free))),
          )
          (refl, refl, (proc_delete-proc_alloc v.procs parent ip live threadless some_free).1)
