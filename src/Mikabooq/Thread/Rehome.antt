-- ===== src/Mikabooq/Thread/Rehome.antt =====
-- The invariant survives when a thread changes its process, as `thread_alloc` and `thread_free` do.
use os_unibo.Base.{◌-◌, ◌≡◌, ◌≢◌, inl, inr, Ptr, null, Bool, List, ◌==◌, ◌∈◌, arith, Bool-cases}
use os_unibo.Mikabooq.{Mem, thread_h, p_threads, t_next}
use os_unibo.Mikabooq.Layout.{IsProc, IsThread, IsNext}
use os_unibo.Mikabooq.Proc.Valid.{IsLive}
use os_unibo.Mikabooq.Thread.Valid.{home_of, Threads, Rehomed}

module _ {is_head : Ptr → Bool} {q q' : Ptr → List Ptr} {m m' : Mem} {t w : Ptr}
    (v : Threads is_head q m) (r : Rehomed is_head q q' m m' t w) where
  free_entry : (a : Ptr) → a ∈ q' thread_h → IsNext a × (m'.t_pcb (a - t_next 0) ≡ null)
  free_entry a h = ground (arith, r.free_list a, v.free_entry a, r.pcb, r.thread, r.owner)

  thread_entry :
      (p a : Ptr) → IsProc p → a ∈ q' (p_threads p) → IsNext a × (m'.t_pcb (a - t_next 0) ≡ p)
  thread_entry p a i h =
      ground (arith, r.thread_list a p i, v.thread_entry p a i, r.pcb, r.thread, r.owner)

  at_home : (x : Ptr) → IsThread x → t_next x ∈ q' (home_of (m'.t_pcb x))
  at_home x i = elim (Bool-cases (x == t)) [
    | inl hit ↦
        ground (arith, r.free_list (t_next t), r.thread_list (t_next t) w, r.pcb, r.owner, i)
    | inr miss ↦ ground (
      arith,
      r.free_list (t_next x),
      r.thread_list (t_next x) (m.t_pcb x),
      r.pcb,
      v.owner_live x i,
      v.at_home x i,
    )
  ]

  still_owned :
      (x : Ptr) → IsThread x → m'.t_pcb x ≢ null → IsProc (m'.t_pcb x) × IsLive m' (m'.t_pcb x)
  still_owned x i ne = elim (Bool-cases (x == t)) [
    | inl hit ↦ ground (arith, r.pcb, r.owner, r.parents)
    | inr miss ↦ ground (arith, r.pcb, v.owner_live x i, r.parents)
  ]

  pub rehome-Threads : Threads is_head q' m'
  rehome-Threads = record {
    linked = r.linked;
    free_is = v.free_is;
    threads_is = v.threads_is;
    msgq_is = v.msgq_is;
    wait4me_is = v.wait4me_is;
    free_entry = free_entry;
    thread_entry = thread_entry;
    at_home = at_home;
    owner_live = still_owned;
    unused = λ x i e. ground (arith, r.pcb, r.own_status.0, r.status x, v.unused x i);
    used = λ x i e. ground (arith, r.pcb, r.own_status.1, r.status x, v.used x i);
    no_msgs = λ x i e. ground (arith, r.pcb, r.own_msgs, r.msgs x i, v.no_msgs x i);
    not_awaited = λ x i e. ground (arith, r.pcb, r.own_awaited, r.awaited x i, v.not_awaited x i);
  }
