-- ===== src/Mikabooq/Tables.antt =====
-- The creation and the end of processes and threads keep the invariant of all the tables.
use os_unibo.Base.{
  ◌≡◌, ◌≢◌, ◌⊎◌, inl, inr, ◌∙◌, Ptr, Bool, List, [], arith, Bool-cases, has-erase, null, ◌==◌,
}
use os_unibo.Mikabooq.{Mem, p_threads, p_children, t_msgq, t_wait4me, t_sched, thread_h, message_h}
use os_unibo.Mikabooq.Layout.{IsThread, proc_h, IsProc}
use os_unibo.Mikabooq.Proc.Valid.{Procs, Procs-frame, IsLive}
use os_unibo.Mikabooq.Thread.Valid.{Threads, home_of}
use os_unibo.Mikabooq.Msgq.Valid.{Msgs-update}
use os_unibo.Mikabooq.Valid.{Valid, IsSchedQueue}
use os_unibo.Mikabooq.Proc.Delete.{Deleted}
use os_unibo.Mikabooq.Proc.Alloc.{Allocated as NewProc}
use os_unibo.Mikabooq.Thread.Free.{Freed}
use os_unibo.Mikabooq.Thread.Alloc.{Allocated as NewThread}

module _ {is_head : Ptr → Bool} {q : Ptr → List Ptr} {m : Mem} (v : Valid is_head q m) where
  -- A new thread.
  pub thread-Valid :
      (m' : Mem) (proc t : Ptr)
      → IsProc proc
      → (new : NewThread is_head q m proc m' t) → Valid is_head new.q' m'
  thread-Valid m' proc t ip new = record {
    procs =
        Procs-frame v.procs m' new.valid.linked new.parents
          (new.others proc_h (λ e. omega arith) (λ e. ground (arith, ip)))
          (λ p i. new.others (p_children p) (λ e. ground (arith, i)) (λ e. ground (arith, i, ip)));
    threads = new.valid;
    msgs =
        Msgs-update v.msgs m' new.valid.linked
          (λ a h. ground (arith, new.others message_h, ip, v.msgs.free_entry a, new.senders))
          (λ k a i h.
            ground (arith, new.others (t_msgq k), i, ip, v.msgs.pending_entry k a i, new.senders));
    readyq_is = v.readyq_is;
    blockedq_is = v.blockedq_is;
    clock_is = v.clock_is;
    sched_entry = λ k a s h. elim (sched_before k s) [
      | inl before ↦
          v.sched_entry k a before (rw (new.others k (not_free k s) (not_threads k s)) at h)
      | inr none ↦ absurd (ground (arith, none, h, new.others k (not_free k s) (not_threads k s)))
    ];
  }
    where
      not_free : (k : Ptr) → IsSchedQueue is_head m' k → k ≢ thread_h
      not_free k s = λ e. ground (arith, s.place)

      not_threads : (k : Ptr) → IsSchedQueue is_head m' k → k ≢ p_threads proc
      not_threads k s = λ e. ground (arith, s.place, ip)

      -- The queue of those who wait for the new thread was empty.
      sched_before : (k : Ptr) → IsSchedQueue is_head m' k → IsSchedQueue is_head m k ⊎ (q k ≡ [])
      sched_before k s = elim (Bool-cases (k == t_wait4me t)) [
        | inl e ↦ inr (ground (arith, v.threads.not_awaited t new.is_thread new.was_free))
        | inr e ↦
            inl (record { is = s.is; place = ground (arith, s.place, new.pcb, new.is_thread) })
      ]

  -- A process that has gone to another list, if the owners of the threads are still in the tree.
  module _ {q' : Ptr → List Ptr} (m' : Mem) (parent : Ptr) (ip : IsProc parent)
      (procs' : Procs is_head q' m')
      (others : (x : Ptr) → x ≢ proc_h → x ≢ p_children parent → q' x ≡ q x)
      (pcbs : m'.t_pcb ≡ m.t_pcb) (statuses : m'.t_status ≡ m.t_status)
      (senders : m'.m_sender ≡ m.m_sender)
      (live : (t : Ptr) → IsThread t → m.t_pcb t ≢ null → IsLive m' (m.t_pcb t)) where
    moved-Threads : Threads is_head q' m'
    moved-Threads = record {
      linked = procs'.linked;
      free_is = v.threads.free_is;
      threads_is = v.threads.threads_is;
      msgq_is = v.threads.msgq_is;
      wait4me_is = v.threads.wait4me_is;
      free_entry = λ a h. ground (arith, others thread_h, pcbs, v.threads.free_entry a, ip);
      thread_entry = λ p a i h.
          ground (arith, others (p_threads p), pcbs, v.threads.thread_entry p a i, ip, i);
      at_home = λ t i. ground (
        arith,
        others (home_of (m.t_pcb t)),
        pcbs,
        v.threads.at_home t i,
        v.threads.owner_live t i,
        ip,
      );
      owner_live = λ t i ne.
          let used = rw pcbs at ne in rw pcbs ((v.threads.owner_live t i used).0, live t i used);
      unused = λ t i e. rw statuses (v.threads.unused t i (rw pcbs at e));
      used = λ t i e. rw statuses (v.threads.used t i (rw pcbs at e));
      no_msgs = λ t i e.
          others (t_msgq t) (λ z. ground (arith, i)) (λ z. ground (arith, i, ip))
          ∙ v.threads.no_msgs t i (rw pcbs at e);
      not_awaited = λ t i e.
          others (t_wait4me t) (λ z. ground (arith, i)) (λ z. ground (arith, i, ip))
          ∙ v.threads.not_awaited t i (rw pcbs at e);
    }

    moved-Valid : Valid is_head q' m'
    moved-Valid = record {
      procs = procs';
      threads = moved-Threads;
      msgs =
          Msgs-update v.msgs m' procs'.linked
            (λ a h. ground (arith, others message_h, ip, v.msgs.free_entry a, senders))
            (λ k a i h.
              ground (arith, others (t_msgq k), i, ip, v.msgs.pending_entry k a i, senders));
      readyq_is = v.readyq_is;
      blockedq_is = v.blockedq_is;
      clock_is = v.clock_is;
      sched_entry = λ k a s h.
          let before : IsSchedQueue is_head m k = record {
            is = s.is;
            place = rw pcbs at s.place;
          } in
          v.sched_entry k a before
            (rw (others k (λ e. ground (arith, s.place)) (λ e. ground (arith, s.place, ip))) at h);
    }

  -- A new process.
  pub process-Valid :
      (m' : Mem) (parent p : Ptr)
      → IsProc parent
      → (new : NewProc is_head q m parent m' p) → Valid is_head new.q' m'
  process-Valid m' parent p ip new =
      moved-Valid m' parent ip new.valid new.others new.pcbs new.statuses new.senders
        (λ t i ne. ground (arith, new.parents, v.threads.owner_live t i ne, ip))

  -- A process that was deleted.
  pub deleted-Valid :
      (m' : Mem) (p : Ptr)
      → IsProc p
      → m.p_parent p ≢ null
      → q (p_threads p) ≡ []
      → (gone : Deleted is_head q m p m') → Valid is_head gone.q' m'
  deleted-Valid m' p ip has_parent no_threads gone =
      moved-Valid m' (m.p_parent p) (v.procs.parent_live p ip has_parent).0 gone.valid gone.others
        gone.pcbs gone.statuses gone.senders
        (λ t i ne. ground (arith, gone.parents, v.threads.owner_live t i ne, v.threads.at_home t i))

  -- A thread that was freed.
  pub freed-Valid :
      (m' : Mem) (t s : Ptr)
      → IsThread t
      → m.t_pcb t ≢ null
      → IsSchedQueue is_head m s
      → (freed : Freed is_head q m t s m') → Valid is_head freed.q' m'
  freed-Valid m' t s it in_use sched freed = record {
    procs =
        Procs-frame v.procs m' freed.valid.linked freed.parents
          (kept proc_h (λ e. omega arith) (λ e. ground (arith, owner))
            (λ e. ground (arith, sched.place)))
          (λ p i.
            kept (p_children p) (λ e. ground (arith, i)) (λ e. ground (arith, i, owner))
              (λ e. ground (arith, i, sched.place)));
    threads = freed.valid;
    msgs =
        Msgs-update v.msgs m' freed.valid.linked
          (λ a h.
            ground (arith, kept message_h, owner, sched.place, v.msgs.free_entry a, freed.senders))
          (λ k a i h. ground (
            arith,
            kept (t_msgq k),
            owner,
            sched.place,
            i,
            v.msgs.pending_entry k a i,
            freed.senders,
          ));
    readyq_is = v.readyq_is;
    blockedq_is = v.blockedq_is;
    clock_is = v.clock_is;
    sched_entry = λ k a is h. v.sched_entry k a (before k is) (
        ground (
          arith,
          h,
          is.place,
          owner,
          kept k,
          freed.sched,
          has-erase a (t_sched t) (q s) (v.msgs.linked.ring s sched.is).distinct,
        ));
  }
    where
      owner : IsProc (m.t_pcb t)
      owner = (v.threads.owner_live t it in_use).0

      kept : (x : Ptr) → x ≢ thread_h → x ≢ p_threads (m.t_pcb t) → x ≢ s → freed.q' x ≡ q x
      kept = freed.others

      before : (k : Ptr) → IsSchedQueue is_head m' k → IsSchedQueue is_head m k
      before k is = record { is = is.is; place = ground (arith, is.place, freed.pcb) }
