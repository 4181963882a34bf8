-- ===== src/Boot/Lists.antt =====
-- The loops of `proc_init`, `thread_init` and `msgq_init` set the lists up one descriptor at a time.
use os_unibo.Base.{
  ◌≤◌, ℕ, suc, ◌+◌, ◌<◌, Ptr, ◌≡◌, true, ◌||◌, [], ◌∷◌, ◌++◌, ◌==◌, arith, update, refl,
}
use os_unibo.Listx.{Links, init_list_head, list_add, list_add_tail}
use os_unibo.Listx.Queues.{Linked, IsLoose, list_add-Linked}
use os_unibo.Mikabooq.{
  process, thread, message, p_threads, p_children, p_siblings, t_next, t_msgq, t_wait4me, m_next,
  thread_h, message_h,
}
use os_unibo.Mikabooq.Layout.{proc_h}
use os_unibo.Boot.Heads.{
  in_series-false, in_series-suc, series, series_down, heads, queues, Linked-cong, add_descriptor,
  fresh,
}

module _ (k : ℕ) (h : k < 19) where
  fresh_proc :
      (a : Ptr)
      → process (suc k) < a
      → a < process (suc k) + 4
      → IsLoose (heads true (suc k) 0) (queues k 0 0) a
  unfolding heads
  fresh_proc a lo hi =
      fresh true (suc k) 0 k 0 0 a
        (ground (
          arith,
          in_series-false 17 (suc k) a,
          in_series-false 18 (suc k) a,
          in_series-false 342 0 a,
          in_series-false 343 0 a,
        ))
        (in_series-false 35 k a (ground arith)) (in_series-false 340 0 a (ground arith))
        (in_series-false 840 0 a (ground arith))

  proc_heads :
      (a : Ptr)
      → heads true (suc (suc k)) 0 a ≡ (
          a == p_children (process (suc k))
          || (a == p_threads (process (suc k)) || heads true (suc k) 0 a))
  unfolding heads
  proc_heads a = ground (arith, in_series-suc 17 (suc k) a, in_series-suc 18 (suc k) a)

  proc_queues :
      (a : Ptr)
      → queues (suc k) 0 0 a
        ≡ update
            (update
              (update
                (queues k 0 0)
                proc_h
                (queues k 0 0 proc_h ++ p_siblings (process (suc k)) ∷ []))
              (p_threads (process (suc k)))
              [])
            (p_children (process (suc k)))
            []
            a
  unfolding queues series
  proc_queues a = ground arith

  -- One more process.
  pub one_proc :
      (l : Links)
      → Linked (heads true (suc k) 0) l (queues k 0 0)
      → let p = process (suc k) in
        Linked
          (heads true (suc (suc k)) 0)
          (init_list_head
            (p_children p)
            (init_list_head (p_threads p) (list_add_tail (p_siblings p) proc_h l)))
          (queues (suc k) 0 0)
  one_proc l linked =
      let p = process (suc k) in
      Linked-cong proc_heads proc_queues (
        add_descriptor linked proc_h (p_siblings p) (p_threads p) (p_children p)
          (unfold heads in refl) (fresh_proc (p_siblings p) (omega arith) (omega arith))
          (fresh_proc (p_threads p) (omega arith) (omega arith))
          (fresh_proc (p_children p) (omega arith) (omega arith)) (ground arith))

-- The addresses of thread `j`, once all the processes are set up.
pub fresh_thread :
    (j nm : ℕ) (a : Ptr)
    → j < 31
    → thread j + 4 ≤ a
    → a < thread j + 8
    → IsLoose (heads true 20 j) (queues 19 j nm) a
unfolding heads
fresh_thread j nm a h lo hi =
    fresh true 20 j 19 j nm a
      (ground (
        arith,
        in_series-false 17 20 a,
        in_series-false 18 20 a,
        in_series-false 342 j a,
        in_series-false 343 j a,
      ))
      (in_series-false 35 19 a (ground arith)) (in_series-false 340 j a (ground arith))
      (in_series-false 840 nm a (ground arith))

pub thread_heads :
    (j : ℕ) (a : Ptr)
    → heads true 20 (suc j) a
      ≡ (a == t_wait4me (thread j) || (a == t_msgq (thread j) || heads true 20 j a))
unfolding heads
thread_heads j a = ground (arith, in_series-suc 342 j a, in_series-suc 343 j a)

thread_queues :
    (j : ℕ) (a : Ptr)
    → j < 30
    → queues 19 (suc j) 0 a
      ≡ update
          (update
            (update (queues 19 j 0) thread_h (queues 19 j 0 thread_h ++ t_next (thread j) ∷ []))
            (t_msgq (thread j))
            [])
          (t_wait4me (thread j))
          []
          a
unfolding queues series
thread_queues j a h = ground arith

-- One more thread.
pub one_thread :
    (j : ℕ) (l : Links)
    → j < 30
    → Linked (heads true 20 j) l (queues 19 j 0)
    → let t = thread j in
      Linked
        (heads true 20 (suc j))
        (init_list_head
          (t_wait4me t)
          (init_list_head (t_msgq t) (list_add_tail (t_next t) thread_h l)))
        (queues 19 (suc j) 0)
one_thread j l h linked =
    let t = thread j in
    Linked-cong (thread_heads j) (λ a. thread_queues j a h)
      (add_descriptor linked thread_h (t_next t) (t_msgq t) (t_wait4me t)
        (unfold heads in ground arith)
        (fresh_thread j 0 (t_next t) (omega arith) (omega arith) (omega arith))
        (fresh_thread j 0 (t_msgq t) (omega arith) (omega arith) (omega arith))
        (fresh_thread j 0 (t_wait4me t) (omega arith) (omega arith) (omega arith)) (ground arith))

queues-message :
    (i : ℕ) (a : Ptr)
    → queues 19 30 (suc i) a
      ≡ update (queues 19 30 i) message_h (m_next (message i) ∷ queues 19 30 i message_h) a
unfolding queues series_down
queues-message i a = ground arith

-- One more message.
pub one_message :
    (i : ℕ) (l : Links)
    → Linked (heads true 20 30) l (queues 19 30 i)
    → Linked (heads true 20 30) (list_add (m_next (message i)) message_h l) (queues 19 30 (suc i))
one_message i l linked =
    Linked-cong (λ a. refl) (queues-message i)
      (list_add-Linked linked (m_next (message i)) message_h (unfold heads in ground arith) (
        fresh true 20 30 19 30 i (m_next (message i))
          (unfold heads in
            ground (
              arith,
              in_series-false 17 20 (m_next (message i)),
              in_series-false 18 20 (m_next (message i)),
              in_series-false 342 30 (m_next (message i)),
              in_series-false 343 30 (m_next (message i)),
            ))
          (in_series-false 35 19 _ (ground arith)) (in_series-false 340 30 _ (ground arith))
          (in_series-false 840 i _ (ground arith))))
