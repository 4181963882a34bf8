-- ===== src/Mikabooq/Valid.antt =====
-- The invariant of all the tables, and what the scheduling queues may do under it.
use os_unibo.Base.{
  ◌-◌, ◌%◌, ◌≤◌, ◌<◌, ◌≡◌, ◌≢◌, ◌⊎◌, inl, refl, ◌∙◌, Ptr, null, Bool, true, List, arith, ◌∈◌,
}
use os_unibo.Listx.Queues.{Linked}
use os_unibo.Mikabooq.{
  Mem, p_threads, p_children, t_msgq, t_wait4me, thread_h, message_h, readyq, blockedq,
  t_wait4clock, t_status_none,
}
use os_unibo.Mikabooq.Layout.{proc_h, IsThread, IsReceiver, IsSchedLink}
use os_unibo.Mikabooq.Proc.Valid.{Procs, Procs-frame}
use os_unibo.Mikabooq.Thread.Valid.{Threads, home_of}
use os_unibo.Mikabooq.Msgq.Valid.{Msgs, Msgs-update}

-- `k` is the sentinel of a scheduling queue: one of the three of the system, or that of the threads
-- that wait for a thread in use.
pub record IsSchedQueue (is_head : Ptr → Bool) (m : Mem) (k : Ptr) : Type 0 where
  pub is : is_head k ≡ true
  pub place :
      ((readyq ≤ k) × (k ≤ t_wait4clock))
      ⊎ ((k % 16 ≡ 7)
          × (k < readyq)
          × (IsThread (k - t_wait4me 0) → m.t_pcb (k - t_wait4me 0) ≢ null))

pub record Valid (is_head : Ptr → Bool) (q : Ptr → List Ptr) (m : Mem) : Type 0 where
  pub procs : Procs is_head q m
  pub threads : Threads is_head q m
  pub msgs : Msgs is_head q m
  pub readyq_is : is_head readyq ≡ true
  pub blockedq_is : is_head blockedq ≡ true
  pub clock_is : is_head t_wait4clock ≡ true
  -- The entries of the scheduling queues are scheduling fields of threads.
  pub sched_entry : (k a : Ptr) → IsSchedQueue is_head m k → a ∈ q k → IsSchedLink a

-- `x` is no scheduling queue.
abbrev pub IsOther : Mem → Ptr → Type 0
IsOther m x =
    ((x < readyq) ⊎ (t_wait4clock < x))
    × ((x % 16 ≢ 7) ⊎ (IsThread (x - t_wait4me 0) × (m.t_pcb (x - t_wait4me 0) ≡ null)))

pub other-ne-sched :
    {is_head : Ptr → Bool} {m : Mem} {k : Ptr} (x : Ptr)
    → IsSchedQueue is_head m k
    → IsOther m x
    → x ≢ k
other-ne-sched x s o = λ e. ground (arith, s.place, o)

-- The tables of `m'` say of every descriptor what those of `m` say: whose it is and whether it is
-- in use.
pub record SameTables (m m' : Mem) : Type 0 where
  pub parents : m'.p_parent ≡ m.p_parent
  pub pcbs : m'.t_pcb ≡ m.t_pcb
  pub senders : m'.m_sender ≡ m.m_sender
  pub unused : (t : Ptr) → IsThread t → m.t_pcb t ≡ null → m'.t_status t ≡ m.t_status t
  pub used :
      (t : Ptr)
      → IsThread t
      → m.t_pcb t ≢ null
      → (m'.t_status t ≡ m.t_status t) ⊎ (m'.t_status t ≢ t_status_none)

module _ {is_head : Ptr → Bool} {q q' : Ptr → List Ptr} {m m' : Mem} (v : Valid is_head q m)
    (same : SameTables m m') (linked : Linked is_head m'.links q')
    (kept : (x : Ptr) → IsOther m x → q' x ≡ q x)
    (entries : (k a : Ptr) → IsSchedQueue is_head m k → a ∈ q' k → IsSchedLink a) where
  frame-Procs : Procs is_head q' m'
  frame-Procs =
      Procs-frame v.procs m' linked same.parents (kept proc_h (omega arith, inl (λ e. omega arith)))
        (λ p i. kept (p_children p) (ground arith))

  frame-Msgs : Msgs is_head q' m'
  frame-Msgs =
      Msgs-update v.msgs m' linked
        (λ a h. rw same.senders (v.msgs.free_entry a (rw (kept message_h (ground arith)) at h)))
        (λ t a i h.
          rw same.senders (v.msgs.pending_entry t a i (rw (kept (t_msgq t) (ground arith)) at h)))

  frame-Threads : Threads is_head q' m'
  frame-Threads = record {
    linked = linked;
    free_is = v.threads.free_is;
    threads_is = v.threads.threads_is;
    msgq_is = v.threads.msgq_is;
    wait4me_is = v.threads.wait4me_is;
    free_entry =
        λ a h. rw same.pcbs (v.threads.free_entry a (rw (kept thread_h (ground arith)) at h));
    thread_entry = λ p a i h.
        rw same.pcbs (v.threads.thread_entry p a i (rw (kept (p_threads p) (ground arith)) at h));
    at_home = λ t i.
        rw same.pcbs (rw (kept (home_of (m.t_pcb t)) (home_other t i)) (v.threads.at_home t i));
    owner_live =
        λ t i ne. rw (same.pcbs, same.parents) (v.threads.owner_live t i (rw same.pcbs at ne));
    unused =
        λ t i e. same.unused t i (rw same.pcbs at e) ∙ v.threads.unused t i (rw same.pcbs at e);
    used = λ t i e.
        ground (arith, same.used t i (rw same.pcbs at e), v.threads.used t i (rw same.pcbs at e));
    no_msgs = λ t i e. kept (t_msgq t) (ground arith) ∙ v.threads.no_msgs t i (rw same.pcbs at e);
    not_awaited = λ t i e.
        let free = rw same.pcbs at e in
        kept (t_wait4me t) (ground arith) ∙ v.threads.not_awaited t i free;
  }
    where
      home_other : (t : Ptr) → IsThread t → IsOther m (home_of (m.t_pcb t))
      home_other t i = ground (arith, v.threads.owner_live t i)

  -- A change of the scheduling queues alone keeps the invariant.
  pub Valid-frame : Valid is_head q' m'
  Valid-frame = record {
    procs = frame-Procs;
    threads = frame-Threads;
    msgs = frame-Msgs;
    readyq_is = v.readyq_is;
    blockedq_is = v.blockedq_is;
    clock_is = v.clock_is;
    sched_entry = λ k a s. entries k a (record { is = s.is; place = rw (← same.pcbs) s.place });
  }

-- Equal fields say the same.
pub SameTables-fields :
    {m m' : Mem}
    → m'.p_parent ≡ m.p_parent
    → m'.t_pcb ≡ m.t_pcb
    → m'.m_sender ≡ m.m_sender
    → m'.t_status ≡ m.t_status
    → SameTables m m'
SameTables-fields parents pcbs senders statuses = record {
  parents = parents;
  pcbs = pcbs;
  senders = senders;
  unused = λ t i e. rw statuses refl;
  used = λ t i e. inl (rw statuses refl);
}

-- A change of the other fields keeps it too.
pub Valid-fields :
    {is_head : Ptr → Bool} {q : Ptr → List Ptr} {m : Mem} (m' : Mem)
    → Valid is_head q m
    → SameTables m m'
    → m'.links ≡ m.links
    → Valid is_head q m'
Valid-fields m' v same links =
    Valid-frame v same (rw links v.msgs.linked) (λ x o. refl) (λ k a s. v.sched_entry k a s)

-- A change of the message queues that leaves the tables of processes and threads alone, and gives
-- no message to a thread that is not in use.
pub Valid-Msgs :
    {is_head : Ptr → Bool} {q q' : Ptr → List Ptr} {m : Mem} (m' : Mem) (dest : Ptr)
    → Valid is_head q m
    → IsReceiver dest
    → (IsThread dest → m.t_pcb dest ≢ null)
    → Msgs is_head q' m'
    → ((x : Ptr) → x ≢ message_h → x ≢ t_msgq dest → q' x ≡ q x)
    → m'.p_parent ≡ m.p_parent
    → m'.t_pcb ≡ m.t_pcb
    → m'.t_status ≡ m.t_status
    → Valid is_head q' m'
Valid-Msgs {is_head} {q} {q'} {m} m' dest v id in_use msgs others parents pcbs statuses = record {
  procs =
      Procs-frame v.procs m' msgs.linked parents
        (others proc_h (λ e. omega arith) (λ e. ground (arith, id)))
        (λ p i. others (p_children p) (λ e. ground (arith, i)) (λ e. ground (arith, i, id)));
  threads = threads;
  msgs = msgs;
  readyq_is = v.readyq_is;
  blockedq_is = v.blockedq_is;
  clock_is = v.clock_is;
  sched_entry = λ k a s h.
      let s' : IsSchedQueue is_head m k = record { is = s.is; place = rw pcbs at s.place } in
      v.sched_entry k a s'
        (rw (others k (λ e. ground (arith, s.place)) (λ e. ground (arith, s.place, id))) at h);
}
  where
    threads : Threads is_head q' m'
    threads = record {
      linked = msgs.linked;
      free_is = v.threads.free_is;
      threads_is = v.threads.threads_is;
      msgq_is = v.threads.msgq_is;
      wait4me_is = v.threads.wait4me_is;
      free_entry = λ a h. ground (arith, others thread_h, pcbs, v.threads.free_entry a, id);
      thread_entry = λ p a i h.
          ground (arith, others (p_threads p), pcbs, v.threads.thread_entry p a i, id, i);
      at_home = λ t i. ground (
        arith,
        others (home_of (m.t_pcb t)),
        pcbs,
        v.threads.at_home t i,
        v.threads.owner_live t i,
        id,
      );
      owner_live = λ t i ne. rw (pcbs, parents) (v.threads.owner_live t i (rw pcbs at ne));
      unused = λ t i e. rw statuses (v.threads.unused t i (rw pcbs at e));
      used = λ t i e. rw statuses (v.threads.used t i (rw pcbs at e));
      no_msgs = λ t i e.
          others (t_msgq t) (λ z. ground (arith, i)) (λ z. ground (arith, i, id, pcbs, in_use, e))
          ∙ v.threads.no_msgs t i (rw pcbs at e);
      not_awaited = λ t i e.
          others (t_wait4me t) (λ z. ground (arith, i)) (λ z. ground (arith, i, id))
          ∙ v.threads.not_awaited t i (rw pcbs at e);
    }
