-- ===== src/Ssi/Tree/Laws.antt =====
-- The termination of a process ends, and nothing of the process and its progeny is left.
use os_unibo.Base.{
  ℕ, zero, suc, ◌-◌, ◌<◌, ◌≡◌, ◌≢◌, inl, inr, refl, ◌∙◌, Ptr, null, Bool, List, [], some, ◌==◌,
  arith, length, length-le-room, nil_of_none, Bool-cases,
}
use os_unibo.Mikabooq.{Mem, max_proc, p_children, p_threads, p_siblings, t_next, process}
use os_unibo.Mikabooq.Layout.{IsProc, IsThread}
use os_unibo.Mikabooq.Proc.{proc_delete}
use os_unibo.Mikabooq.Proc.Delete.{Deleted, proc_delete-Deleted}
use os_unibo.Mikabooq.Valid.{Valid}
use os_unibo.Mikabooq.Tables.{deleted-Valid}
use os_unibo.Kernel.{Kernel}
use os_unibo.Ssi.Create.{get_processid_s}
use os_unibo.Ssi.Tree.{terminate_process_s, terminate_tree}
use os_unibo.Ssi.Counted.{Counted-same}
use os_unibo.Ssi.Settled.{Settled, Settled-frame}
use os_unibo.Ssi.Tree.Threads.{Emptied, terminate_all-Emptied}
use os_unibo.Ssi.Tree.Under.{
  Under, itself, IsRanked, Shrinks-Under, Shrinks-IsRanked, Gone, Terminated, Gone-Terminated,
}
use os_unibo.Ssi.Tree.Children.{Childless, Terminates, terminate_children-Childless}

module _ {is_head : Ptr → Bool} {q : Ptr → List Ptr} (m : Mem) (v : Valid is_head q m)
    (settled : Settled is_head q m) (p : Ptr) (ip : IsProc p)
    (has_parent : m.p_parent p ≢ null) where
  -- The deletion of a process leaves the threads where they are.
  pub Deleted-Settled : (m' : Mem) (gone : Deleted is_head q m p m') → Settled is_head gone.q' m'
  Deleted-Settled m' gone =
      let parent = (v.procs.parent_live p ip has_parent).0 in
      Settled-frame v settled gone.pcbs gone.statuses
        (λ x sched.
          gone.others x (λ e. ground (arith, sched.place))
            (λ e. ground (arith, sched.place, parent)))
        (λ h a ih aligned i. ground (
          arith,
          gone.others h,
          gone.valid.free_entry a,
          gone.valid.child_entry (m.p_parent p) a parent,
        ))
        (λ x ix.
          ground
            (arith, gone.other_mgrs x, gone.no_sys_mgr, settled.mgrs x ix, Bool-cases (x == p)))

  -- No process has as many children as there are processes.
  children_lt : length (q (p_children p)) < max_proc
  children_lt = omega (
    arith,
    length-le-room (p_siblings (process 1)) 19 (q (p_children p))
        (v.msgs.linked.ring (p_children p) (v.procs.children_is p ip)).distinct
        (λ a i. omega (arith, (v.procs.child_entry p a ip i).0)),
  )

module _ {is_head : Ptr → Bool} {q : Ptr → List Ptr} (k : Kernel) (p : Ptr) (ip : IsProc p)
    (has_parent : k.mem.p_parent p ≢ null) (k1 : Kernel) (emptied : Emptied is_head q k p k1)
    (k2 : Kernel) (childless : Childless is_head emptied.q' k1 p k2) where
  no_threads : childless.q' (p_threads p) ≡ []
  no_threads = nil_of_none (childless.q' (p_threads p)) (λ a i. ground (
    arith,
    childless.valid.threads.thread_entry p a ip i,
    childless.threads (a - t_next 0),
    emptied.valid.threads.at_home (a - t_next 0),
    emptied.no_threads,
    ip,
  ))

  still_parent : k2.mem.p_parent p ≢ null
  still_parent = rw (childless.same_parent, emptied.parents) has_parent

  deletion : Deleted is_head childless.q' k2.mem p (proc_delete p k2.mem).0
  deletion =
      (proc_delete-Deleted childless.valid.procs p ip still_parent childless.no_children
        no_threads).1

  Under-same : {c : Ptr} → Under k1.mem p c → Under k.mem p c
  Under-same u = Shrinks-Under (λ c. inl (rw emptied.parents refl)) itself u

  all-Gone : Gone is_head q k p (record k2 { mem = (proc_delete p k2.mem).0 })
  all-Gone = record {
    q' = deletion.q';
    valid = deleted-Valid childless.valid _ p ip still_parent no_threads deletion;
    settled = Deleted-Settled k2.mem childless.valid childless.settled p ip still_parent _ deletion;
    counted = λ before.
        Counted-same k2 (record k2 { mem = (proc_delete p k2.mem).0 }) deletion.pcbs refl
          (childless.counted (emptied.counted before));
    deleted = ground (arith, deletion.parents);
    procs = λ c. elim (Bool-cases (c == p)) [
      | inl hit ↦
          let same : c ≡ p = ground arith in inr (ground (arith, deletion.parents), rw same itself)
      | inr miss ↦ elim (childless.procs c) [
        | inl kept ↦ inl (ground (arith, deletion.parents, kept, emptied.parents))
        | inr (freed, u) ↦ inr (ground (arith, deletion.parents, freed), Under-same u)
      ]
    ];
    threads = λ t. elim (childless.threads t) [
      | inl kept ↦ elim (emptied.threads t) [
        | inl before ↦ inl (rw deletion.pcbs (kept ∙ before))
        | inr (ended, owner) ↦ inr (rw deletion.pcbs (kept ∙ ended), rw owner itself)
      ]
      | inr (ended, u) ↦ elim (emptied.threads t) [
        | inl before ↦ inr (rw deletion.pcbs ended, Under-same (rw before at u))
        | inr (freed, owner) ↦ inr (rw deletion.pcbs ended, rw owner itself)
      ]
    ];
  }

module _ {is_head : Ptr → Bool} (rank : Ptr → ℕ) where
  -- Provided that the processes form a tree in which a child has a smaller rank than its parent.
  terminate_tree-Gone :
      (depth : ℕ) (applicant : Ptr)
      → Terminates is_head rank depth (λ p. terminate_tree depth p applicant)
  unfolding terminate_tree
  terminate_tree-Gone zero applicant p q k v settled ip has ranked low = absurd (omega arith)
  terminate_tree-Gone (suc depth) applicant p q k v settled ip has ranked low =
      let (k1, run1, emptied) = terminate_all-Emptied p applicant ip k v settled in
      let (k2, run2, childless) =
        terminate_children-Childless rank depth (λ child. terminate_tree depth child null)
          (terminate_tree-Gone depth null) p ip (omega arith) max_proc k1 emptied.valid
          emptied.settled (rw emptied.parents has)
          (Shrinks-IsRanked k.mem k1.mem rank (λ c. inl (rw emptied.parents refl)) ranked)
          (children_lt k1.mem emptied.valid emptied.settled p ip (rw emptied.parents has)) in
      (
        record k2 { mem = (proc_delete p k2.mem).0 },
        rw (run1, run2) refl,
        all-Gone k p ip has k1 emptied k2 childless,
      )

  -- Given that every thread in use is in a scheduling queue, and that the processes form a tree of at
  -- most as many levels as there are processes, a request
  -- of a thread of any process but the root to end the process succeeds: the recursion ends within
  -- its bounds, every process that was the applicant's or under it is free again, and every thread
  -- of them has ended; the others keep their parents and their threads, the tables are sound, and
  -- `thread_count` is right if it was.
  pub terminate_process_s-Terminated :
      {q : Ptr → List Ptr} (k : Kernel) (v : Valid is_head q k.mem)
      → Settled is_head q k.mem
      → (applicant : Ptr) → IsThread applicant
      → k.mem.t_pcb applicant ≢ null
      → k.mem.p_parent (k.mem.t_pcb applicant) ≢ null
      → IsRanked rank k.mem
      → rank (k.mem.t_pcb applicant) < max_proc
      → (k' : Kernel) × (terminate_process_s applicant k ≡ some k')
        × Terminated is_head k (k.mem.t_pcb applicant) k'
  unfolding terminate_process_s get_processid_s
  terminate_process_s-Terminated {q} k v settled applicant it used has ranked low =
      let p = k.mem.t_pcb applicant in
      let (k', run, gone) =
        terminate_tree-Gone max_proc applicant p q k v settled
          (v.threads.owner_live applicant it used).0 has ranked low in
      (k', run, Gone-Terminated k v p has k' gone)
