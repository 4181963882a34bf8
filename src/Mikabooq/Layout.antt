-- ===== src/Mikabooq/Layout.antt =====
-- Which addresses are descriptors, and which fields the entries of the lists are.
use os_unibo.Base.{◌-◌, ◌%◌, ◌≤◌, ◌<◌, ◌≡◌, ◌≢◌, Ptr}
use os_unibo.Mikabooq.{process, thread, message, p_siblings, t_next, t_sched, m_next}

abbrev pub root : Ptr
root = process 0

-- The sentinel of the free list of processes is the unused sibling field of the root.
abbrev pub proc_h : Ptr
proc_h = p_siblings root

pub record IsProc (p : Ptr) : Type 0 where
  pub aligned : p % 16 ≡ 0
  pub from : process 0 ≤ p
  pub below : p < process 20

pub record IsThread (t : Ptr) : Type 0 where
  pub aligned : t % 16 ≡ 0
  pub from : thread 0 ≤ t
  pub below : t < thread 30

-- The descriptor of the system service interface stands outside the pool of threads.
abbrev pub ssi_thread : Ptr
ssi_thread = thread 30

-- A thread of the pool, or the SSI.
pub record IsReceiver (t : Ptr) : Type 0 where
  pub aligned : t % 16 ≡ 0
  pub from : thread 0 ≤ t
  pub below : t ≤ ssi_thread

pub record IsMsg (x : Ptr) : Type 0 where
  pub aligned : x % 16 ≡ 0
  pub from : message 0 ≤ x
  pub below : x < message 40

-- `a` is the sibling field of a process other than the root.
pub record IsSibling (a : Ptr) : Type 0 where
  pub offset : 3 ≤ a
  pub proc : IsProc (a - p_siblings 0)
  pub not_root : a - p_siblings 0 ≢ root

pub record IsNext (a : Ptr) : Type 0 where
  pub offset : 4 ≤ a
  pub thread : IsThread (a - t_next 0)

pub record IsMsgLink (a : Ptr) : Type 0 where
  pub offset : 8 ≤ a
  pub msg : IsMsg (a - m_next 0)

pub record IsSchedLink (a : Ptr) : Type 0 where
  pub offset : 5 ≤ a
  pub thread : IsReceiver (a - t_sched 0)
