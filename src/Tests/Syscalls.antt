-- ===== src/Tests/Syscalls.antt =====
-- System calls and traps that a manager handles.
use os_unibo.Base.{◌≡◌, inl, inr, refl, Ptr, null, [], ◌∷◌, arith, has-append}
use os_unibo.Kernel.Message.{send}
use os_unibo.Kernel.Trap.{save_trapped, tlbtrap_h, t_s_at}
use os_unibo.Kernel.Trap.Handover.{Attends, HandedOver}
use os_unibo.Kernel.Trap.Laws.{Sends, repeated, tlb, handler-HandedOver}
use os_unibo.Kernel.Syscall.{sent_state}
use os_unibo.Listx.Queues.{IsLoose}
use os_unibo.Mikabooq.{thread, t_sched, blockedq}
use os_unibo.Mikabooq.Layout.{ssi_thread}
use os_unibo.Mikabooq.Valid.{Valid, Valid-fields, SameTables-fields}
use os_unibo.Boot.Valid.{boot_heads, boot_queues, ownerless}
use os_unibo.Kernel.{Kernel, Machine}
use os_unibo.Tests.Blank.{zero_cpu, blank}
use os_unibo.Tests.Kernel.{with_mem, blocked, blocked_queues, blocked-Valid}
use os_unibo.Tests.Ssi.{all-IsLoose, machine}

-- Thread 0 calls, and the SSI is every manager of all processes.
abbrev calling : Kernel
calling =
    record (with_mem (record blocked {
      sys_mgr = λ _. ssi_thread;
      pgm_mgr = λ _. ssi_thread;
      tlb_mgr = λ _. ssi_thread;
      t_wait4sender = λ _. null;
    })) { current_thread = thread 0 }

calling-Valid : Valid boot_heads blocked_queues calling.mem
calling-Valid = Valid-fields _ blocked-Valid (SameTables-fields refl refl refl refl) refl

calling-IsLoose : IsLoose boot_heads blocked_queues (t_sched (thread 0))
calling-IsLoose =
    let was = all-IsLoose (thread 0) (omega arith) (ownerless blank (thread 0) (omega arith)) in
    record {
      not_head = was.not_head;
      not_in = λ h ih. ground (
        arith,
        was.not_in h ih,
        has-append (t_sched (thread 0)) (boot_queues blockedq) (t_sched ssi_thread ∷ []),
      );
    }

attends : (mgr : Ptr) → mgr ≡ ssi_thread → Attends boot_heads blocked_queues calling mgr blockedq
attends mgr e = rw e (record {
  receiver = omega arith;
  other = λ z. omega arith;
  waiting = ground arith;
  awaits = inr refl;
  sched = record { is = calling-Valid.blockedq_is; place = inl (omega arith, omega arith) };
  queued =
      ground
        (arith, has-append (t_sched ssi_thread) (boot_queues blockedq) (t_sched ssi_thread ∷ []));
})

-- The machine whose system call sends.
abbrev sending : Machine
sending = record machine {
  msgsend = λ dest payload k. sent_state k (send dest k.current_thread payload k);
}

sending-Sends : Sends sending.msgsend
unfolding sent_state
sending-Sends dest payload k k' run = (k'.sysbk_old, rw run refl)

handler-HandedOver_example :
    HandedOver boot_heads blocked_queues
      (save_trapped zero_cpu calling)
      ssi_thread
      blockedq
      (t_s_at (thread 0))
      (repeated zero_cpu)
      (tlbtrap_h sending calling)
handler-HandedOver_example =
    handler-HandedOver sending sending-Sends calling calling-Valid (omega arith) calling-IsLoose
      blockedq tlb (attends ssi_thread refl)
