-- ===== src/Mikabooq/Thread/Valid.antt =====
-- The threads of each process: which list a thread descriptor is in, and what its fields say.
use os_unibo.Base.{
  ◌-◌, ◌≡◌, ◌≢◌, ◌⊎◌, Ptr, null, Bool, true, List, [], ◌==◌, if◌then◌else◌, ◌∈◌, arith, update, has,
}
use os_unibo.Listx.Queues.{Linked}
use os_unibo.Mikabooq.{Mem, thread_h, p_threads, t_next, t_msgq, t_wait4me, t_status_none}
use os_unibo.Mikabooq.Layout.{IsProc, IsThread, IsNext}
use os_unibo.Mikabooq.Proc.Valid.{IsLive}

-- The list that a thread belongs to: that of its process, or the free list.
abbrev pub home_of : Ptr → Ptr
home_of p = if p == null then thread_h else p_threads p

pub record Threads (is_head : Ptr → Bool) (q : Ptr → List Ptr) (m : Mem) : Type 0 where
  pub linked : Linked is_head m.links q
  pub free_is : is_head thread_h ≡ true
  pub threads_is : (p : Ptr) → IsProc p → is_head (p_threads p) ≡ true
  pub msgq_is : (t : Ptr) → IsThread t → is_head (t_msgq t) ≡ true
  pub wait4me_is : (t : Ptr) → IsThread t → is_head (t_wait4me t) ≡ true
  pub free_entry : (a : Ptr) → a ∈ q thread_h → IsNext a × (m.t_pcb (a - t_next 0) ≡ null)
  pub thread_entry :
      (p a : Ptr) → IsProc p → a ∈ q (p_threads p) → IsNext a × (m.t_pcb (a - t_next 0) ≡ p)
  pub at_home : (t : Ptr) → IsThread t → t_next t ∈ q (home_of (m.t_pcb t))
  pub owner_live :
      (t : Ptr) → IsThread t → m.t_pcb t ≢ null → IsProc (m.t_pcb t) × IsLive m (m.t_pcb t)
  -- The status field says which descriptors are in use, and an unused one has no messages and
  -- nobody waits for it.
  pub unused : (t : Ptr) → IsThread t → m.t_pcb t ≡ null → m.t_status t ≡ t_status_none
  pub used : (t : Ptr) → IsThread t → m.t_pcb t ≢ null → m.t_status t ≢ t_status_none
  pub no_msgs : (t : Ptr) → IsThread t → m.t_pcb t ≡ null → q (t_msgq t) ≡ []
  pub not_awaited : (t : Ptr) → IsThread t → m.t_pcb t ≡ null → q (t_wait4me t) ≡ []

module _ {is_head : Ptr → Bool} {q : Ptr → List Ptr} {m : Mem} (v : Threads is_head q m) where
  pub home_is : (t : Ptr) → IsThread t → is_head (home_of (m.t_pcb t)) ≡ true
  home_is t i = ground (arith, v.free_is, v.owner_live t i, v.threads_is (m.t_pcb t))

  pub home_of_is : (p : Ptr) → (p ≡ null) ⊎ IsProc p → is_head (home_of p) ≡ true
  home_of_is p i = ground (arith, v.free_is, v.threads_is p)

-- A thread `t` gets the process `w`, or none, with the status `st`: what that changes of the lists
-- and of the fields.
pub record Rehomed (is_head : Ptr → Bool) (q q' : Ptr → List Ptr) (m m' : Mem) (t w : Ptr)
    : Type 0 where
  pub thread : IsThread t
  pub owner : (w ≡ null) ⊎ (IsProc w × IsLive m w)
  pub linked : Linked is_head m'.links q'
  pub free_list :
      (a : Ptr)
      → has a (q' thread_h) ≡ (if a == t_next t then thread_h == home_of w else has a (q thread_h))
  pub thread_list :
      (a p : Ptr)
      → IsProc p
      → has a (q' (p_threads p))
        ≡ (if a == t_next t then p_threads p == home_of w else has a (q (p_threads p)))
  pub pcb : m'.t_pcb ≡ update m.t_pcb t w
  pub parents : m'.p_parent ≡ m.p_parent
  pub status : (x : Ptr) → x ≢ t → m'.t_status x ≡ m.t_status x
  pub own_status :
      (w ≡ null → m'.t_status t ≡ t_status_none) × (w ≢ null → m'.t_status t ≢ t_status_none)
  pub msgs : (x : Ptr) → IsThread x → q (t_msgq x) ≡ [] → q' (t_msgq x) ≡ []
  pub own_msgs : w ≡ null → q' (t_msgq t) ≡ []
  pub awaited : (x : Ptr) → IsThread x → q (t_wait4me x) ≡ [] → q' (t_wait4me x) ≡ []
  pub own_awaited : w ≡ null → q' (t_wait4me t) ≡ []
