-- ===== src/Mikabooq.antt =====
-- mikabooq.h and the macros of mikabooq.c: the descriptors of processes, threads and messages, where
-- they lie in memory, and the queue macros over their `struct list_head` fields. const.h.
pub mod Layout
pub mod Msgq
pub mod Proc
pub mod Thread
pub mod Valid
pub mod Sched
pub mod Tables
use os_unibo.Base.{ℕ, ◌+◌, ◌-◌, ◌*◌, Ptr, null, Bool, ◌==◌, if◌then◌else◌}
use os_unibo.Listx.{Links, list_next, list_del}

abbrev pub max_proc : ℕ
max_proc = 20

abbrev pub max_thread : ℕ
max_thread = 30

abbrev pub max_msg : ℕ
max_msg = 40

-- `state_t`: the registers that the nucleus reads or writes. The others are only copied.
pub record Cpu : Type 0 where
  pub a1 : ℕ
  pub a2 : ℕ
  pub a3 : ℕ
  pub a4 : ℕ
  pub sp : ℕ
  pub pc : ℕ
  pub cpsr : ℕ
  pub cp15_cause : ℕ

-- The memory, a function of the descriptor's address for each field of `struct pcb_t`,
-- `struct tcb_t` and `struct msg_t`; the `struct list_head` fields are in `links`.
pub record Mem : Type 0 where
  pub links : Links
  pub p_parent : Ptr → Ptr
  pub pgm_mgr : Ptr → Ptr
  pub tlb_mgr : Ptr → Ptr
  pub sys_mgr : Ptr → Ptr
  pub t_pcb : Ptr → Ptr
  pub t_s : Ptr → Cpu
  pub t_status : Ptr → ℕ
  pub run_time : Ptr → ℕ
  pub errno : Ptr → ℕ
  pub t_wait4sender : Ptr → Ptr
  pub m_sender : Ptr → Ptr
  pub m_value : Ptr → ℕ

abbrev pub t_status_none : ℕ
t_status_none = 0

abbrev pub t_status_ready : ℕ
t_status_ready = 1

abbrev pub t_status_w4msg : ℕ
t_status_w4msg = 4

-- A descriptor takes 16 units of memory, and a field stands at an offset of its own, so that an
-- address tells which field of which descriptor it is. `&p->p_threads` is `p + 1`.
abbrev pub p_threads : Ptr → Ptr
p_threads p = p + 1

abbrev pub p_children : Ptr → Ptr
p_children p = p + 2

abbrev pub p_siblings : Ptr → Ptr
p_siblings p = p + 3

abbrev pub t_next : Ptr → Ptr
t_next t = t + 4

abbrev pub t_sched : Ptr → Ptr
t_sched t = t + 5

abbrev pub t_msgq : Ptr → Ptr
t_msgq t = t + 6

abbrev pub t_wait4me : Ptr → Ptr
t_wait4me t = t + 7

abbrev pub m_next : Ptr → Ptr
m_next m = m + 8

-- `container_of`, the member given by its offset.
abbrev pub container_of : Ptr → ℕ → Ptr
container_of ptr offset = ptr - offset

-- `process[i]`, `thread[i]`, `message[i]`, and the sentinels of the free lists of the last two.
abbrev pub process : ℕ → Ptr
process i = 16 * (1 + i)

abbrev pub thread : ℕ → Ptr
thread i = 16 * (21 + i)

abbrev pub message : ℕ → Ptr
message i = 16 * (52 + i)

abbrev pub thread_h : Ptr
thread_h = 1481

abbrev pub message_h : Ptr
message_h = 1482

-- The sentinels of scheduler.c and wait_for_clock.c.
abbrev pub readyq : Ptr
readyq = 1483

abbrev pub blockedq : Ptr
blockedq = 1484

abbrev pub t_wait4clock : Ptr
t_wait4clock = 1485

-- `__qhead`
unfoldable pub qhead : (queue : Ptr) (member : ℕ) → Mem → Ptr
qhead queue member m =
    let new_head = list_next queue m.links in
    if new_head == null then null else container_of new_head member

-- `__dequeue`
unfoldable pub dequeue : (queue : Ptr) (member : ℕ) → Mem → Mem × Ptr
dequeue queue member m =
    let new_head = list_next queue m.links in
    if new_head == null
    then (m, null)
    else (record m { links = list_del new_head m.links }, container_of new_head member)
