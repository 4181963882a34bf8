-- ===== src/Boot/Valid.antt =====
-- The memory after the start meets the invariants of processes, threads and messages.
use os_unibo.Base.{Ptr, null, ◌≡◌, ◌≢◌, refl, Bool, true, List, [], arith, ◌∈◌}
use os_unibo.Mikabooq.{
  Mem, p_threads, p_children, p_siblings, t_next, t_msgq, t_wait4me, thread_h, message_h,
}
use os_unibo.Mikabooq.Layout.{
  root, proc_h, IsProc, IsThread, IsReceiver, IsSibling, IsNext, IsMsgLink,
}
use os_unibo.Mikabooq.Proc.Valid.{Procs}
use os_unibo.Mikabooq.Thread.Valid.{Threads}
use os_unibo.Mikabooq.Msgq.Valid.{Msgs}
use os_unibo.Mikabooq.Valid.{Valid}
use os_unibo.Boot.{boot}
use os_unibo.Boot.Heads.{in_series_iff, heads, queues, has-queues}
use os_unibo.Boot.Loops.{Started, boot-Started}

abbrev pub boot_heads : Ptr → Bool
boot_heads = heads true 20 31

abbrev pub boot_queues : Ptr → List Ptr
boot_queues = queues 19 30 40

-- A sentinel for each list of a descriptor.
head_of_proc :
    (p : Ptr) → IsProc p → (boot_heads (p_threads p) ≡ true) × (boot_heads (p_children p) ≡ true)
unfolding heads
head_of_proc p i =
    ground (arith, in_series_iff 17 20 (p_threads p), in_series_iff 18 20 (p_children p))

head_of_thread :
    (t : Ptr) → IsReceiver t → (boot_heads (t_msgq t) ≡ true) × (boot_heads (t_wait4me t) ≡ true)
unfolding heads
head_of_thread t i =
    ground (arith, in_series_iff 342 31 (t_msgq t), in_series_iff 343 31 (t_wait4me t))

receiver_of_thread : (t : Ptr) → IsThread t → IsReceiver t
receiver_of_thread t i = record { aligned = i.aligned; from = i.from; below = omega arith }

free_proc : (a : Ptr) → a ∈ boot_queues proc_h → IsSibling a
free_proc a h =
    let r = (in_series_iff 35 19 a).0 (ground (arith, has-queues 19 30 40 a proc_h)) in
    record { offset = omega arith; proc = omega arith; not_root = omega arith }

free_thread : (a : Ptr) → a ∈ boot_queues thread_h → IsNext a
free_thread a h =
    let r = (in_series_iff 340 30 a).0 (ground (arith, has-queues 19 30 40 a thread_h)) in
    record { offset = omega arith; thread = omega arith }

free_message : (a : Ptr) → a ∈ boot_queues message_h → IsMsgLink a
free_message a h =
    let r = (in_series_iff 840 40 a).0 (ground (arith, has-queues 19 30 40 a message_h)) in
    record { offset = omega arith; msg = omega arith }

-- The other lists are empty.
empty_list : (h : Ptr) → h ≢ proc_h → h ≢ thread_h → h ≢ message_h → boot_queues h ≡ []
unfolding queues
empty_list h np nt nm = ground arith

module _ (m : Mem) where
  started : Started 19 31 30 40 (boot m)
  started = boot-Started m

  pub parentless : (p : Ptr) → IsProc p → (boot m).p_parent p ≡ null
  parentless p i = started.parents p i (omega arith)

  pub managerless : (p : Ptr) → IsProc p → (boot m).sys_mgr p ≡ null
  managerless p i = started.mgrs p i (omega arith)

  pub ownerless : (t : Ptr) → IsThread t → (boot m).t_pcb t ≡ null
  ownerless t i = started.pcbs t i (omega arith)

  listed_proc : (p : Ptr) → IsProc p → p ≢ root → p_siblings p ∈ boot_queues proc_h
  listed_proc p i ne =
      ground (arith, has-queues 19 30 40 (p_siblings p) proc_h, in_series_iff 35 19 (p_siblings p))

  listed_thread : (t : Ptr) → IsThread t → t_next t ∈ boot_queues thread_h
  listed_thread t i =
      ground (arith, has-queues 19 30 40 (t_next t) thread_h, in_series_iff 340 30 (t_next t))

  empty_children : (p : Ptr) → IsProc p → boot_queues (p_children p) ≡ []
  empty_children p i = empty_list (p_children p) (omega arith) (omega arith) (omega arith)

  empty_threads : (p : Ptr) → IsProc p → boot_queues (p_threads p) ≡ []
  empty_threads p i = empty_list (p_threads p) (omega arith) (omega arith) (omega arith)

  empty_msgq : (t : Ptr) → IsReceiver t → boot_queues (t_msgq t) ≡ []
  empty_msgq t i = empty_list (t_msgq t) (omega arith) (omega arith) (omega arith)

  -- After the start the root is alone in the tree, and the other processes are free.
  pub boot-Procs : Procs boot_heads boot_queues (boot m)
  boot-Procs = record {
    linked = started.linked;
    free_is = unfold heads in refl;
    children_is = λ p i. (head_of_proc p i).1;
    threads_is = λ p i. (head_of_proc p i).0;
    root_orphan = parentless root (omega arith);
    free_entry = λ a h. (free_proc a h, parentless _ (free_proc a h).proc);
    child_entry = λ p a i h. absurd (ground (arith, empty_children p i));
    at_home = λ p i ne. ground (arith, parentless p i, listed_proc p i);
    parent_live = λ p i ne. absurd (ne (parentless p i));
  }

  -- Every thread of the pool is free.
  pub boot-Threads : Threads boot_heads boot_queues (boot m)
  boot-Threads = record {
    linked = started.linked;
    free_is = unfold heads in ground arith;
    threads_is = λ p i. (head_of_proc p i).0;
    msgq_is = λ t i. (head_of_thread t (receiver_of_thread t i)).0;
    wait4me_is = λ t i. (head_of_thread t (receiver_of_thread t i)).1;
    free_entry = λ a h. (free_thread a h, ownerless _ (free_thread a h).thread);
    thread_entry = λ p a i h. absurd (ground (arith, empty_threads p i));
    at_home = λ t i. ground (arith, ownerless t i, listed_thread t i);
    owner_live = λ t i ne. absurd (ne (ownerless t i));
    unused = λ t i e. started.statuses t i (omega arith);
    used = λ t i ne. absurd (ne (ownerless t i));
    no_msgs = λ t i e. empty_msgq t (receiver_of_thread t i);
    not_awaited = λ t i e. empty_list (t_wait4me t) (omega arith) (omega arith) (omega arith);
  }

  -- Every message is free.
  pub boot-Msgs : Msgs boot_heads boot_queues (boot m)
  boot-Msgs = record {
    linked = started.linked;
    free_is = unfold heads in ground arith;
    msgq_is = λ t i. (head_of_thread t i).0;
    free_entry = λ a h. (
      free_message a h,
      started.senders _ (free_message a h).msg (omega (arith, free_message a h)),
    );
    pending_entry = λ t a i h. absurd (ground (arith, empty_msgq t i));
  }

  -- Whatever the memory held before, the start establishes the invariant of all the tables.
  pub boot-Valid : Valid boot_heads boot_queues (boot m)
  boot-Valid = record {
    procs = boot-Procs;
    threads = boot-Threads;
    msgs = boot-Msgs;
    readyq_is = unfold heads in ground arith;
    blockedq_is = unfold heads in ground arith;
    clock_is = unfold heads in ground arith;
    sched_entry = λ k a s h. absurd (ground (arith, s.place, empty_list k));
  }
