-- ===== src/Boot/Loops.antt =====
-- The three loops run to their ends: every descriptor is set up.
use native.Mathlib.Numerals.{add-one}
use os_unibo.Base.{ℕ, zero, suc, ◌+◌, ◌<◌, Ptr, null, ◌≡◌, refl, true, arith}
use os_unibo.Listx.Queues.{Linked}
use os_unibo.Mikabooq.{Mem, process, thread, message, t_status_none}
use os_unibo.Mikabooq.Layout.{IsProc, IsThread, IsMsg}
use os_unibo.Mikabooq.Proc.{proc_init_one, proc_init_loop, proc_init}
use os_unibo.Mikabooq.Thread.{thread_init_one, thread_init_loop, thread_init}
use os_unibo.Mikabooq.Msgq.{msgq_init_one, msgq_init_loop, msgq_init}
use os_unibo.Boot.{static_heads, init_descriptors, ssi_descriptor_init, boot}
use os_unibo.Boot.Heads.{heads, queues}
use os_unibo.Boot.Lists.{one_proc, one_thread, one_message}
use os_unibo.Boot.Ends.{root_lists, ssi_lists}

-- `np` processes besides the root, `nt` threads (`ht` of them with their lists) and `nm` messages
-- are set up.
pub record Started (np ht nt nm : ℕ) (m : Mem) : Type 0 where
  pub linked : Linked (heads true (suc np) ht) m.links (queues np nt nm)
  pub parents : (p : Ptr) → IsProc p → p < process (suc np) → m.p_parent p ≡ null
  pub mgrs : (p : Ptr) → IsProc p → p < process (suc np) → m.sys_mgr p ≡ null
  pub pcbs : (t : Ptr) → IsThread t → t < thread nt → m.t_pcb t ≡ null
  pub statuses : (t : Ptr) → IsThread t → t < thread nt → m.t_status t ≡ t_status_none
  pub senders : (x : Ptr) → IsMsg x → x < message nm → m.m_sender x ≡ null

proc_step :
    (k : ℕ) (m : Mem) → k < 19 → Started k 0 0 0 m → Started (suc k) 0 0 0 (proc_init_one (suc k) m)
unfolding proc_init_one
proc_step k m h s = record {
  linked = one_proc k h m.links s.linked;
  parents = λ p i lt. ground (arith, s.parents p i);
  mgrs = λ p i lt. ground (arith, s.mgrs p i);
  pcbs = s.pcbs;
  statuses = s.statuses;
  senders = s.senders;
}

proc_loop :
    (n k : ℕ) (m : Mem)
    → n + k ≡ 19
    → Started k 0 0 0 m
    → Started 19 0 0 0 (proc_init_loop n (suc k) m)
unfolding proc_init_loop
proc_loop zero k m e s = let last : k ≡ 19 = omega arith in rw last at s
proc_loop (suc n) k m e s =
    rw add-one
      (proc_loop n (suc k) (proc_init_one (suc k) m) (omega arith) (proc_step k m (omega arith) s))

thread_step :
    (j : ℕ) (m : Mem)
    → j < 30
    → Started 19 j j 0 m
    → Started 19 (suc j) (suc j) 0 (thread_init_one j m)
unfolding thread_init_one
thread_step j m h s = record {
  linked = one_thread j m.links h s.linked;
  parents = s.parents;
  mgrs = s.mgrs;
  pcbs = λ t i lt. ground (arith, s.pcbs t i);
  statuses = λ t i lt. ground (arith, s.statuses t i);
  senders = s.senders;
}

thread_loop :
    (n j : ℕ) (m : Mem)
    → n + j ≡ 30
    → Started 19 j j 0 m
    → Started 19 30 30 0 (thread_init_loop n j m)
unfolding thread_init_loop
thread_loop zero j m e s = let last : j ≡ 30 = omega arith in rw last at s
thread_loop (suc n) j m e s =
    rw add-one
      (thread_loop n (suc j) (thread_init_one j m) (omega arith) (thread_step j m (omega arith) s))

message_step :
    (i : ℕ) (m : Mem) → Started 19 30 30 i m → Started 19 30 30 (suc i) (msgq_init_one i m)
unfolding msgq_init_one
message_step i m s = record {
  linked = one_message i m.links s.linked;
  parents = s.parents;
  mgrs = s.mgrs;
  pcbs = s.pcbs;
  statuses = s.statuses;
  senders = λ x ix lt. ground (arith, s.senders x ix);
}

message_loop :
    (n i : ℕ) (m : Mem)
    → n + i ≡ 40
    → Started 19 30 30 i m
    → Started 19 30 30 40 (msgq_init_loop n i m)
unfolding msgq_init_loop
message_loop zero i m e s = let last : i ≡ 40 = omega arith in rw last at s
message_loop (suc n) i m e s =
    rw add-one (message_loop n (suc i) (msgq_init_one i m) (omega arith) (message_step i m s))

proc_init-Started : (m : Mem) → Started 19 0 0 0 (proc_init (static_heads m)).0
unfolding proc_init static_heads
proc_init-Started m = proc_loop 19 0 _ refl (record {
  linked = root_lists m.links;
  parents = λ p i lt. ground arith;
  mgrs = λ p i lt. ground arith;
  pcbs = λ t i lt. absurd (omega arith);
  statuses = λ t i lt. absurd (omega arith);
  senders = λ x i lt. absurd (omega arith);
})

init_descriptors-Started : (m : Mem) → Started 19 30 30 40 (init_descriptors (static_heads m))
unfolding init_descriptors thread_init msgq_init
init_descriptors-Started m =
    message_loop 40 0 _ refl (thread_loop 30 0 _ refl (proc_init-Started m))

-- Whatever the memory held, after the start every list is set up and every descriptor is free.
pub boot-Started : (m : Mem) → Started 19 31 30 40 (boot m)
unfolding boot ssi_descriptor_init
boot-Started m =
    let s = init_descriptors-Started m in
    record {
      linked = ssi_lists _ s.linked;
      parents = s.parents;
      mgrs = s.mgrs;
      pcbs = λ t i lt. ground (arith, s.pcbs t i);
      statuses = λ t i lt. ground (arith, s.statuses t i);
      senders = s.senders;
    }
