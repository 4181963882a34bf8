-- ===== src/Kernel/Syscall/Laws.antt =====
-- A system call that a manager of the process handles, and one that is not allowed.
use os_unibo.Base.{◌≡◌, refl, Ptr, null, Bool, false, List, ◌==◌, arith}
use os_unibo.Listx.Queues.{IsLoose}
use os_unibo.Mikabooq.{Cpu, t_sched}
use os_unibo.Mikabooq.Layout.{IsReceiver}
use os_unibo.Mikabooq.Valid.{SameTables-fields, Valid, Valid-fields}
use os_unibo.Kernel.{Kernel, Machine}
use os_unibo.Kernel.Trap.{t_s_at}
use os_unibo.Kernel.Trap.Handover.{Attends, Attends-fields, HandedOver, hand_over}
use os_unibo.Kernel.Trap.Laws.{repeated}
use os_unibo.Kernel.Syscall.{
  syscall_other, save_current, write_call, sent_state, exc_reserved_instr,
}

-- The registers of the running thread are saved, and the call stands in the handler's frame.
abbrev pub recorded : Machine → Kernel → Kernel
recorded mach k = write_call mach.frame k.sysbk_old (save_current k.sysbk_old k)

-- The area of program traps after a call that is not allowed.
abbrev pub reserved : Kernel → Cpu
reserved k = record (k.sysbk_old) { cp15_cause = exc_reserved_instr }

abbrev pub trapped : Kernel → Kernel
trapped k = record k { pgmtrap_old = reserved k }

module _ {is_head : Ptr → Bool} {q : Ptr → List Ptr} (mach : Machine) (k : Kernel)
    (v : Valid is_head q k.mem) (running : IsReceiver k.current_thread)
    (loose : IsLoose is_head q (t_sched k.current_thread)) (h : Ptr) where
  abbrev pub sys_manager : Ptr
  sys_manager = k.mem.sys_mgr (k.mem.t_pcb k.current_thread)

  abbrev pub pgm_manager : Ptr
  pgm_manager = k.mem.pgm_mgr (k.mem.t_pcb k.current_thread)

  -- Without such a manager it is handed over to the program trap manager, if that waits likewise: it
  -- gets the address of the registers, and the call is repeated afterwards.
  pub syscall_other-repeated :
      sys_manager ≡ null
      → Attends is_head q k pgm_manager h
      → HandedOver is_head q
          (save_current (repeated k.sysbk_old) k)
          pgm_manager
          h
          (t_s_at k.current_thread)
          (repeated k.sysbk_old)
          (syscall_other mach k)
  unfolding save_current syscall_other sent_state
  syscall_other-repeated none attends =
      let set : (pgm_manager == null) ≡ false = ground (arith, attends.receiver) in
      let saved = save_current (repeated k.sysbk_old) k in
      hand_over saved (Valid-fields _ v (SameTables-fields refl refl refl refl) refl) running loose
        pgm_manager h (Attends-fields saved refl refl refl refl attends) (t_s_at k.current_thread)
        (repeated k.sysbk_old) (syscall_other mach k) (ground arith)
        (λ k' run. (k'.sysbk_old, rw (none, set, run) refl))
