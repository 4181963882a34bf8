-- ===== src/Mikabooq/Thread/Alloc.antt =====
-- `thread_alloc`.
use os_unibo.Base.{
  ◌-◌, ◌≡◌, ◌≢◌, ◌⊎◌, inl, inr, refl, Ptr, null, update, Bool, true, has, List, [], ◌∷◌, ◌++◌, ◌==◌,
  if◌then◌else◌, ◌∈◌, arith, erase, uncons,
}
use os_unibo.Listx.{list_add_tail, list_del}
use os_unibo.Listx.Moves.{move, move-Linked, has-move, list_next-eq}
use os_unibo.Mikabooq.{Mem, thread_h, p_threads, t_next, t_status_ready}
use os_unibo.Mikabooq.Layout.{IsProc, IsThread, IsNext}
use os_unibo.Mikabooq.Proc.Valid.{IsLive}
use os_unibo.Mikabooq.Thread.{thread_alloc}
use os_unibo.Mikabooq.Thread.Valid.{Threads, Rehomed}
use os_unibo.Mikabooq.Thread.Rehome.{rehome-Threads}

-- What a successful call leaves: the thread `t`, taken from the head of the free list, is ready and
-- the last of its process. No other list has changed.
pub record Allocated (is_head : Ptr → Bool) (q : Ptr → List Ptr) (m : Mem) (proc : Ptr) (m' : Mem)
    (t : Ptr) : Type 0 where
  pub is_thread : IsThread t
  pub was_free : m.t_pcb t ≡ null
  pub pcb : m'.t_pcb ≡ update m.t_pcb t proc
  pub status : m'.t_status ≡ update m.t_status t t_status_ready
  pub q' : Ptr → List Ptr
  pub valid : Threads is_head q' m'
  pub free : q thread_h ≡ t_next t ∷ q' thread_h
  pub threads : q' (p_threads proc) ≡ q (p_threads proc) ++ t_next t ∷ []
  pub others : (x : Ptr) → x ≢ thread_h → x ≢ p_threads proc → q' x ≡ q x
  -- The other tables are as they were.
  pub parents : m'.p_parent ≡ m.p_parent
  pub senders : m'.m_sender ≡ m.m_sender
  pub states : m'.t_s ≡ m.t_s
  pub sys_mgrs : m'.sys_mgr ≡ m.sys_mgr

module _ {is_head : Ptr → Bool} {q : Ptr → List Ptr} {m : Mem} (v : Threads is_head q m)
    (proc : Ptr) where
  -- With no process, or no free descriptor, `thread_alloc` returns NULL and changes nothing.
  pub thread_alloc-null : (proc ≡ null) ⊎ (q thread_h ≡ []) → thread_alloc proc m ≡ (m, null)
  unfolding thread_alloc
  thread_alloc-null (inl e) = ground arith
  thread_alloc-null (inr e) = ground (arith, list_next-eq v.linked thread_h v.free_is)

  module _ (ip : IsProc proc) (live : IsLive m proc) (f : Ptr) (rest : List Ptr)
      (free : q thread_h ≡ f ∷ rest) where
    first_in : f ∈ q thread_h
    first_in = ground arith

    is_next : IsNext f × (m.t_pcb (f - t_next 0) ≡ null)
    is_next = v.free_entry f first_in

    after : Mem
    after = record m {
      links = list_add_tail f (p_threads proc) (list_del f m.links);
      t_pcb = update m.t_pcb (f - t_next 0) proc;
      t_status = update m.t_status (f - t_next 0) t_status_ready;
    }

    after_q : Ptr → List Ptr
    after_q = move f thread_h (p_threads proc) q

    thread_alloc-after : thread_alloc proc m ≡ (after, f - t_next 0)
    unfolding thread_alloc after
    thread_alloc-after =
        ground (arith, list_next-eq v.linked thread_h v.free_is, is_next.0.offset, ip)

    moved :
        (a x : Ptr)
        → is_head x ≡ true
        → has a (after_q x) ≡ (if a == f then x == p_threads proc else has a (q x))
    unfolding after_q
    moved = has-move v.linked f thread_h (p_threads proc) v.free_is (v.threads_is proc ip) first_in

    after-Rehomed : Rehomed is_head q after_q m after (f - t_next 0) proc
    unfolding after after_q move
    after-Rehomed = record {
      thread = is_next.0.thread;
      owner = inr (ip, live);
      linked =
          move-Linked v.linked f thread_h (p_threads proc) v.free_is (v.threads_is proc ip)
            first_in;
      free_list = λ a. ground (arith, moved a thread_h v.free_is, is_next.0, ip);
      thread_list =
          λ a p i. ground (arith, moved a (p_threads p) (v.threads_is p i), is_next.0, ip);
      pcb = refl;
      parents = refl;
      status = λ x ne. ground arith;
      own_status = ground (arith, ip);
      msgs = λ x i e. ground (arith, ip);
      own_msgs = λ e. ground (arith, ip);
      awaited = λ x i e. ground (arith, ip);
      own_awaited = λ e. ground (arith, ip);
    }

    after-Allocated : Allocated is_head q m proc after (f - t_next 0)
    unfolding after after_q move erase
    after-Allocated = record {
      is_thread = is_next.0.thread;
      was_free = is_next.1;
      pcb = refl;
      status = refl;
      q' = after_q;
      valid = rehome-Threads v after-Rehomed;
      free = ground (arith, is_next, ip);
      threads = ground (arith, is_next, ip);
      others = λ x nf nc. ground (arith, is_next, ip);
      parents = refl;
      senders = refl;
      states = refl;
      sys_mgrs = refl;
    }

  -- Given a live process and a free descriptor, `thread_alloc` makes the first free thread the last
  -- of the process, ready, leaves the other lists as they were, and keeps the invariant of threads.
  pub thread_alloc-Allocated :
      IsProc proc
      → IsLive m proc
      → q thread_h ≢ []
      → let (m', t) = thread_alloc proc m in Allocated is_head q m proc m' t
  thread_alloc-Allocated ip live ne =
      let (f, rest, e) = uncons (q thread_h) ne in
      rw (thread_alloc-after ip live f rest e) (after-Allocated ip live f rest e)
