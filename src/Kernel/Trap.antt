-- ===== src/Kernel/Trap.antt =====
-- handlers/trap.c, and the requests of nucleus.h that end the running thread or its process.
pub mod Laws
pub mod Handover
use os_unibo.Base.{ℕ, ◌+◌, Ptr, null, update, ◌==◌, if◌then◌else◌}
use os_unibo.Mikabooq.{Cpu, Mem, blockedq}
use os_unibo.Mikabooq.Layout.{ssi_thread}
use os_unibo.Mikabooq.Thread.{thread_enqueue}
use os_unibo.Kernel.{Kernel, Machine, Outcome, panics, sub_word}
use os_unibo.Kernel.Scheduler.{scheduler}

-- `&t->t_s`
abbrev pub t_s_at : Ptr → Ptr
t_s_at t = t + 9

abbrev pub terminate_process_tag : ℕ
terminate_process_tag = 3

abbrev pub terminate_thread_tag : ℕ
terminate_thread_tag = 4

unfoldable pub terminate_process : Machine → Kernel → Kernel
terminate_process mach k = mach.msgrecv ssi_thread null (
    mach.msgsend ssi_thread mach.frame
      (record k { words = update k.words mach.frame terminate_process_tag }))

unfoldable pub terminate_thread : Machine → Kernel → Kernel
terminate_thread mach k = mach.msgrecv ssi_thread null (
    mach.msgsend ssi_thread mach.frame
      (record k { words = update k.words mach.frame terminate_thread_tag }))

-- The state of the running thread is saved such that the instruction is repeated.
unfoldable pub save_trapped : Cpu → Kernel → Kernel
unfolding sub_word
save_trapped oldarea k = record k {
  mem = record (k.mem) {
    t_s = update k.mem.t_s k.current_thread (record oldarea { pc = sub_word oldarea.pc 4 });
  };
}

-- The running thread is blocked without a receive, and another one runs.
unfoldable pub block_current : Kernel → Outcome
block_current k = scheduler (record k { mem = thread_enqueue k.current_thread blockedq k.mem })

-- `__trap_h`
unfoldable pub trap_h : Machine → (mgr : Ptr) → Cpu → Kernel → Outcome
unfolding save_trapped block_current terminate_process
trap_h mach mgr oldarea k =
    if mgr == null
    then panics (terminate_process mach k)
    else block_current (mach.msgsend mgr (t_s_at k.current_thread) (save_trapped oldarea k))

unfoldable pub pgmtrap_h : Machine → Kernel → Outcome
unfolding trap_h
pgmtrap_h mach k = trap_h mach (k.mem.pgm_mgr (k.mem.t_pcb k.current_thread)) k.pgmtrap_old k

unfoldable pub tlbtrap_h : Machine → Kernel → Outcome
unfolding trap_h
tlbtrap_h mach k = trap_h mach (k.mem.tlb_mgr (k.mem.t_pcb k.current_thread)) k.tlb_old k
