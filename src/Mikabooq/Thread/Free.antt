-- ===== src/Mikabooq/Thread/Free.antt =====
-- `thread_free`.
use os_unibo.Base.{
  ◌≡◌, ◌≢◌, inl, refl, pos, negsuc, Ptr, null, update, Bool, true, has, List, [], ◌∷◌, ◌++◌, ◌==◌,
  if◌then◌else◌, ◌∈◌, arith, erase, has-erase, has-append, Bool-cases,
}
use os_unibo.Listx.{list_add_tail, list_del}
use os_unibo.Listx.Queues.{
  Linked, IsLoose, list_del-Linked, list_del-IsLoose, list_add_tail-Linked, IsLoose-del,
}
use os_unibo.Listx.Moves.{list_empty-eq}
use os_unibo.Mikabooq.{Mem, thread_h, p_threads, t_next, t_sched, t_msgq, t_wait4me, t_status_none}
use os_unibo.Mikabooq.Layout.{IsProc, IsThread}
use os_unibo.Mikabooq.Thread.{clean_thread_data, thread_free}
use os_unibo.Mikabooq.Thread.Valid.{Threads, Rehomed, home_of, home_is}
use os_unibo.Mikabooq.Thread.Rehome.{rehome-Threads}

-- What a successful call leaves: `t` is unused, the last of the free list, and gone from the list
-- of its process and from the scheduling queue `k`.
pub record Freed (is_head : Ptr → Bool) (q : Ptr → List Ptr) (m : Mem) (t k : Ptr) (m' : Mem)
    : Type 0 where
  pub pcb : m'.t_pcb ≡ update m.t_pcb t null
  pub status : m'.t_status ≡ update m.t_status t t_status_none
  pub q' : Ptr → List Ptr
  pub valid : Threads is_head q' m'
  pub free : q' thread_h ≡ q thread_h ++ t_next t ∷ []
  pub threads : q' (p_threads (m.t_pcb t)) ≡ erase (t_next t) (q (p_threads (m.t_pcb t)))
  pub sched : q' k ≡ erase (t_sched t) (q k)
  pub others : (x : Ptr) → x ≢ thread_h → x ≢ p_threads (m.t_pcb t) → x ≢ k → q' x ≡ q x
  -- The other tables are as they were.
  pub parents : m'.p_parent ≡ m.p_parent
  pub senders : m'.m_sender ≡ m.m_sender
  pub sys_mgrs : m'.sys_mgr ≡ m.sys_mgr

module _ {is_head : Ptr → Bool} {q : Ptr → List Ptr} {m : Mem} (v : Threads is_head q m) (t : Ptr)
    (it : IsThread t) where
  -- A thread with pending messages stays, and -1 is returned.
  pub thread_free-msgs : q (t_msgq t) ≢ [] → thread_free t m ≡ (m, negsuc 0)
  unfolding thread_free
  thread_free-msgs e = ground (arith, list_empty-eq v.linked (t_msgq t) (v.msgq_is t it))

  -- A thread without messages, for which others wait, stays, and -2 is returned.
  pub thread_free-awaited :
      q (t_msgq t) ≡ [] → q (t_wait4me t) ≢ [] → thread_free t m ≡ (m, negsuc 1)
  unfolding thread_free
  thread_free-awaited e ne = ground (
    arith,
    list_empty-eq v.linked (t_msgq t) (v.msgq_is t it),
    list_empty-eq v.linked (t_wait4me t) (v.wait4me_is t it),
  )

  module _ (has_proc : m.t_pcb t ≢ null) (no_msgs : q (t_msgq t) ≡ [])
      (not_awaited : q (t_wait4me t) ≡ []) (k : Ptr) (ik : is_head k ≡ true)
      (queued : t_sched t ∈ q k) where
    after : Mem
    unfolding clean_thread_data
    after = record (clean_thread_data t m) {
      links =
          list_add_tail (t_next t) thread_h (list_del (t_sched t) (list_del (t_next t) m.links));
    }

    thread_free-after : thread_free t m ≡ (after, pos 0)
    unfolding thread_free after
    thread_free-after = ground (
      arith,
      list_empty-eq v.linked (t_msgq t) (v.msgq_is t it),
      list_empty-eq v.linked (t_wait4me t) (v.wait4me_is t it),
    )

    home : Ptr
    home = home_of (m.t_pcb t)

    -- The lists after each of the three steps.
    out_next : Ptr → List Ptr
    unfolding home
    out_next = update q home (erase (t_next t) (q home))

    out_sched : Ptr → List Ptr
    unfolding out_next
    out_sched = update out_next k (erase (t_sched t) (out_next k))

    after_q : Ptr → List Ptr
    unfolding out_sched
    after_q = update out_sched thread_h (out_sched thread_h ++ t_next t ∷ [])

    -- The queue `k` holds scheduling fields, so it is no list of threads.
    k-ne-threads : (k ≢ thread_h) × ((p : Ptr) → IsProc p → k ≢ p_threads p)
    k-ne-threads = (
      λ e. ground (arith, v.free_entry (t_sched t), it),
      λ p i e. ground (arith, v.thread_entry p (t_sched t) i, it),
    )

    owner : IsProc (m.t_pcb t)
    owner = (v.owner_live t it has_proc).0

    home_in : t_next t ∈ q home
    unfolding home
    home_in = v.at_home t it

    home_head : is_head home ≡ true
    unfolding home
    home_head = home_is v t it

    still_queued : t_sched t ∈ out_next k
    unfolding out_next home
    still_queued = ground (arith, k-ne-threads.1 (m.t_pcb t) owner)

    out_next-Linked : Linked is_head (list_del (t_next t) m.links) out_next
    unfolding out_next
    out_next-Linked = list_del-Linked v.linked (t_next t) home home_head home_in

    out_sched-Linked : Linked is_head (list_del (t_sched t) (list_del (t_next t) m.links)) out_sched
    unfolding out_sched
    out_sched-Linked = list_del-Linked out_next-Linked (t_sched t) k ik still_queued

    next-IsLoose : IsLoose is_head out_sched (t_next t)
    unfolding out_sched out_next
    next-IsLoose =
        IsLoose-del out_next-Linked (t_sched t) k (t_next t) ik
          (list_del-IsLoose v.linked (t_next t) home home_head home_in)

    after-thread_list :
        (a p : Ptr)
        → IsProc p
        → has a (after_q (p_threads p))
          ≡ (if a == t_next t then p_threads p == thread_h else has a (q (p_threads p)))
    unfolding after_q home
    after-thread_list a p i = ground (
      arith,
      k-ne-threads.1 p i,
      owner,
      has-erase a (t_next t) (q (p_threads (m.t_pcb t)))
          (v.linked.ring (p_threads (m.t_pcb t)) (v.threads_is (m.t_pcb t) owner)).distinct,
      v.thread_entry p (t_next t) i,
      Bool-cases (has (t_next t) (q (p_threads p))),
    )

    stays_nil : (x : Ptr) → x ≢ thread_h → x ≢ p_threads (m.t_pcb t) → q x ≡ [] → after_q x ≡ []
    unfolding after_q home erase
    stays_nil x nh np e = ground (arith, owner, k-ne-threads.1 (m.t_pcb t) owner)

    after-Rehomed : Rehomed is_head q after_q m after t null
    unfolding after after_q home
    after-Rehomed = record {
      thread = it;
      owner = inl refl;
      linked = list_add_tail-Linked out_sched-Linked (t_next t) thread_h v.free_is next-IsLoose;
      free_list =
          λ a. ground (arith, k-ne-threads.0, owner, has-append a (q thread_h) (t_next t ∷ []));
      thread_list = after-thread_list;
      pcb = refl;
      parents = refl;
      status = λ x ne. ground arith;
      own_status = ground arith;
      msgs = λ x i e. stays_nil (t_msgq x) (omega (arith, i)) (omega (arith, i, owner)) e;
      own_msgs = λ _. stays_nil (t_msgq t) (omega (arith, it)) (omega (arith, it, owner)) no_msgs;
      awaited = λ x i e. stays_nil (t_wait4me x) (omega (arith, i)) (omega (arith, i, owner)) e;
      own_awaited =
          λ _. stays_nil (t_wait4me t) (omega (arith, it)) (omega (arith, it, owner)) not_awaited;
    }

    after-Freed : Freed is_head q m t k after
    unfolding after after_q home
    after-Freed = record {
      pcb = refl;
      status = refl;
      q' = after_q;
      valid = rehome-Threads v after-Rehomed;
      free = ground (arith, k-ne-threads.0, owner);
      threads = ground (arith, k-ne-threads.1 (m.t_pcb t) owner, owner);
      sched = ground (arith, k-ne-threads.0, k-ne-threads.1 (m.t_pcb t) owner, owner);
      others = λ x nf np nk. ground (arith, owner);
      parents = refl;
      senders = refl;
      sys_mgrs = refl;
    }

    -- A thread with no messages, for which nobody waits and which stands in the scheduling queue
    -- `k`, is taken out of its two lists and goes to the free list.
    pub thread_free-Freed :
        let (m', code) = thread_free t m in (code ≡ pos 0) × Freed is_head q m t k m'
    thread_free-Freed = rw thread_free-after (refl, after-Freed)
