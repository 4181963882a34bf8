-- ===== src/Tests/Tree.antt =====
-- A process with a thread, which ends.
use os_unibo.Base.{
  ◌⊎◌, ◌<◌, none, ◌≡◌, ◌≢◌, inl, inr, refl, Ptr, null, update, List, [], ◌∷◌, ◌++◌, some, arith,
  ◌==◌, if◌then◌else◌, ℕ, has-append,
}
use os_unibo.Listx.Queues.{IsLoose}
use os_unibo.Mikabooq.{max_proc, Mem, readyq, thread_h, t_sched, t_next, t_wait4me, p_threads}
use os_unibo.Mikabooq.Layout.{root, proc_h, IsThread}
use os_unibo.Mikabooq.Proc.{proc_alloc}
use os_unibo.Mikabooq.Proc.Alloc.{Allocated as NewProc, proc_alloc-Allocated}
use os_unibo.Mikabooq.Thread.{thread_alloc, thread_enqueue}
use os_unibo.Mikabooq.Thread.Alloc.{Allocated as NewThread, thread_alloc-Allocated}
use os_unibo.Mikabooq.Valid.{Valid, IsSchedQueue}
use os_unibo.Mikabooq.Tables.{process-Valid, thread-Valid}
use os_unibo.Mikabooq.Sched.{thread_enqueue-Valid}
use os_unibo.Boot.Heads.{queues, series}
use os_unibo.Boot.Loose.{sched-IsLoose}
use os_unibo.Boot.Valid.{boot_heads, boot_queues, boot-Valid, ownerless, parentless, managerless}
use os_unibo.Kernel.{Kernel}
use os_unibo.Ssi.Tree.{terminate_process_s, terminate_thread_s}
use os_unibo.Ssi.Settled.{Settled}
use os_unibo.Ssi.Tree.Under.{IsRanked, Terminated}
use os_unibo.Ssi.Tree.Laws.{terminate_process_s-Terminated}
use os_unibo.Ssi.Tree.Ended.{Ended}
use os_unibo.Ssi.Tree.Single.{terminate_thread_s-Terminated}
use os_unibo.Ssi.Manager.{sys, manager, setmgr}
use os_unibo.Ssi.Manager.Laws.{setmgr-once}
use os_unibo.Tests.Blank.{blank, booted}
use os_unibo.Tests.Kernel.{with_mem}

free_process : boot_queues proc_h ≢ []
unfolding queues series
free_process = λ e. cc

free_thread : boot_queues thread_h ≢ []
unfolding queues series
free_thread = λ e. cc

abbrev populated : Mem
populated = (proc_alloc root booted).0

abbrev process : Ptr
process = (proc_alloc root booted).1

abbrev new_process : NewProc boot_heads boot_queues booted root populated process
new_process =
    proc_alloc-Allocated (boot-Valid blank).procs root (omega arith) (inl refl) free_process

populated-Valid : Valid boot_heads new_process.q' populated
populated-Valid = process-Valid (boot-Valid blank) populated root process (omega arith) new_process

thread_left : new_process.q' thread_h ≢ []
unfolding queues series
thread_left = λ e. cc (new_process.others thread_h (λ z. omega arith) (λ z. omega arith), e)

abbrev inhabited : Mem
inhabited = (thread_alloc process populated).0

abbrev its_thread : Ptr
its_thread = (thread_alloc process populated).1

live : populated.p_parent process ≢ null
live = ground (arith, new_process.parents)

abbrev new_thread : NewThread boot_heads new_process.q' populated process inhabited its_thread
new_thread =
    thread_alloc-Allocated populated-Valid.threads process new_process.is_proc (inr live)
      thread_left

inhabited-Valid : Valid boot_heads new_thread.q' inhabited
inhabited-Valid =
    thread-Valid populated-Valid inhabited process its_thread new_process.is_proc new_thread

abbrev ready : Mem
ready = thread_enqueue its_thread readyq inhabited

abbrev ready_queues : Ptr → List Ptr
ready_queues = update new_thread.q' readyq (new_thread.q' readyq ++ t_sched its_thread ∷ [])

-- The fields by which a thread stands in a scheduling queue are in no queue yet.
sched_out : (t : Ptr) → IsThread t → IsLoose boot_heads new_thread.q' (t_sched t)
sched_out t it =
    let was =
      sched-IsLoose t
        (record { aligned = it.aligned; from = it.from; below = omega (arith, it) }) in
    record {
      not_head = was.not_head;
      not_in = λ h ih. ground (
        arith,
        was.not_in h ih,
        new_process.others h,
        new_process.valid.free_entry (t_sched t),
        new_process.valid.child_entry root (t_sched t) (omega arith),
        new_thread.others h,
        new_thread.valid.free_entry (t_sched t),
        new_thread.valid.thread_entry process (t_sched t) new_process.is_proc,
        it,
      );
    }

ready_sched : (m : Mem) → IsSchedQueue boot_heads m readyq
ready_sched m = record { is = (boot-Valid blank).readyq_is; place = inl (omega arith, omega arith) }

ready-Valid : Valid boot_heads ready_queues ready
ready-Valid =
    let it = new_thread.is_thread in
    thread_enqueue-Valid inhabited-Valid readyq (ready_sched inhabited) its_thread
      (record { aligned = it.aligned; from = it.from; below = omega (arith, it) })
      (sched_out its_thread it)

used_is : (t : Ptr) → IsThread t → inhabited.t_pcb t ≢ null → t ≡ its_thread
used_is t it used = ground (arith, new_thread.pcb, new_process.pcbs, ownerless blank t it)

owner : inhabited.t_pcb its_thread ≡ process
owner = ground (arith, new_thread.pcb)

ready-Settled : Settled boot_heads ready_queues ready
unfolding thread_enqueue queues
ready-Settled = record {
  placed = λ t it used.
      let same = used_is t it used in
      rw same (record {
        s = readyq;
        sched = ready_sched ready;
        queued = ground (
          arith,
          has-append (t_sched its_thread) (new_thread.q' readyq) (t_sched its_thread ∷ []),
        );
        apart = λ e. omega (arith, new_thread.is_thread);
      });
  waits = λ t a it used i. absurd (
      ground (
        arith,
        new_process.others (t_wait4me t),
        new_thread.others (t_wait4me t),
        new_process.is_proc,
        it,
      ));
  idle = λ t it unused.
      let was = sched_out t it in
      record {
        not_head = was.not_head;
        not_in = λ h ih. ground (
          arith,
          was.not_in h ih,
          has-append (t_sched t) (new_thread.q' readyq) (t_sched its_thread ∷ []),
          new_thread.pcb,
          new_process.is_proc,
        );
      };
  runnable =
      λ t it used. let same = used_is t it used in inl (ground (arith, same, new_thread.status));
  mgrs = λ p ip.
      inl (ground (arith, new_thread.sys_mgrs, new_process.sys_mgrs, managerless blank p ip));
}

-- The root is above the other process.
abbrev rank : Ptr → ℕ
rank p = if p == root then 1 else 0

ready-IsRanked : IsRanked rank ready
unfolding thread_enqueue
ready-IsRanked c ic ne =
    ground
      (arith, new_thread.parents, new_process.parents, parentless blank c ic, new_process.ne_root)

ready_parent : ready.p_parent process ≢ null
unfolding thread_enqueue
ready_parent = ground (arith, new_thread.parents, new_process.parents)

ready_owner : ready.t_pcb its_thread ≡ process
unfolding thread_enqueue
ready_owner = owner

used_ready : ready.t_pcb its_thread ≢ null
used_ready = ground (arith, ready_owner, new_process.is_proc)

parent_ready : ready.p_parent (ready.t_pcb its_thread) ≢ null
parent_ready = ground (arith, ready_owner, ready_parent)

low_ready : rank (ready.t_pcb its_thread) < max_proc
low_ready = ground (arith, ready_owner, new_process.ne_root)

terminate_process_s-Terminated_example :
    (k' : Kernel) × (terminate_process_s its_thread (with_mem ready) ≡ some k')
    × Terminated boot_heads (with_mem ready) (ready.t_pcb its_thread) k'
terminate_process_s-Terminated_example =
    terminate_process_s-Terminated rank (with_mem ready) ready-Valid ready-Settled its_thread
      new_thread.is_thread used_ready parent_ready ready-IsRanked low_ready

terminate_thread_s-Terminated_example :
    (k' : Kernel) × (terminate_thread_s its_thread (with_mem ready) ≡ some k')
    × (((ready_queues (p_threads (ready.t_pcb its_thread)) ≡ t_next its_thread ∷ [])
          × Terminated boot_heads (with_mem ready) (ready.t_pcb its_thread) k')
        ⊎ ((ready_queues (p_threads (ready.t_pcb its_thread)) ≢ t_next its_thread ∷ [])
            × Ended boot_heads ready_queues (with_mem ready) its_thread k'))
terminate_thread_s-Terminated_example =
    terminate_thread_s-Terminated rank (with_mem ready) ready-Valid ready-Settled its_thread
      new_thread.is_thread used_ready parent_ready ready-IsRanked low_ready

no_manager : ready.sys_mgr (ready.t_pcb its_thread) ≡ null
unfolding thread_enqueue
no_manager = ground (
  arith,
  ready_owner,
  new_thread.sys_mgrs,
  new_process.sys_mgrs,
  managerless blank process new_process.is_proc,
)

-- The thread names itself as the system call manager, twice.
setmgr-once_example :
    (k' : Kernel) × (setmgr sys its_thread its_thread (with_mem ready) ≡ some (k', some its_thread))
    × (manager sys (ready.t_pcb its_thread) k'.mem ≡ its_thread)
    × Valid boot_heads ready_queues k'.mem
    × (k'' : Kernel) × (setmgr sys its_thread its_thread k' ≡ some (k'', none))
    × Terminated boot_heads k' (ready.t_pcb its_thread) k''
setmgr-once_example =
    setmgr-once rank (with_mem ready) ready-Valid ready-Settled sys its_thread its_thread its_thread
      its_thread (λ e. omega (arith, new_thread.is_thread, e))
      (λ e. omega (arith, new_thread.is_thread, e)) (unfold manager in no_manager)
      (λ e. omega (arith, new_thread.is_thread)) new_thread.is_thread refl used_ready parent_ready
      ready-IsRanked low_ready
