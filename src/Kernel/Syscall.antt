-- ===== src/Kernel/Syscall.antt =====
-- handlers/syscall.c: the dispatch of a system call.
pub mod Laws
use os_unibo.Base.{ℕ, ◌%◌, Ptr, null, update, Option, none, some, Bool, ◌==◌, if◌then◌else◌}
use os_unibo.Mikabooq.{Cpu}
use os_unibo.Kernel.{Kernel, Machine, Outcome, loads, panics, undefined, sub_word, word_at}
use os_unibo.Kernel.Message.{send}
use os_unibo.Kernel.Receive.{store_return_value, recv}
use os_unibo.Kernel.Trap.{t_s_at, terminate_thread, pgmtrap_h, block_current}

abbrev pub sys_err : ℕ
sys_err = 0

abbrev pub sys_send : ℕ
sys_send = 1

abbrev pub sys_recv : ℕ
sys_recv = 2

-- `EXC_RESERVEDINSTR`
abbrev pub exc_reserved_instr : ℕ
exc_reserved_instr = 20

unfoldable pub raise_reserved_instruction : Machine → Kernel → Outcome
raise_reserved_instruction mach k =
    pgmtrap_h mach
      (record k { pgmtrap_old = record (k.sysbk_old) { cp15_cause = exc_reserved_instr } })

-- `IS_KERNEL_MODE`: `cpsr & STATUS_SYS_MODE == STATUS_SYS_MODE` is `cpsr & 1`.
unfoldable pub is_kernel_mode : Kernel → Bool
is_kernel_mode k = k.sysbk_old.cpsr % 2 == 1

-- The return value of `send` goes to the sender, which runs on.
unfoldable pub return_sent : Option (Kernel × ℕ) → Outcome
unfolding store_return_value
return_sent none = undefined
return_sent (some (k, rval)) = let k' = store_return_value rval k in loads k'.sysbk_old k'

unfoldable pub send_kernel : Machine → (dest : Ptr) (msg : ℕ) → Kernel → Outcome
unfolding return_sent is_kernel_mode raise_reserved_instruction
send_kernel mach dest msg k =
    if is_kernel_mode k
    then return_sent (send dest k.current_thread msg k)
    else raise_reserved_instruction mach k

unfoldable pub recv_kernel : Machine → (src pmsg : Ptr) → Kernel → Outcome
unfolding is_kernel_mode raise_reserved_instruction
recv_kernel mach src pmsg k =
    if is_kernel_mode k then recv mach.msgsend src pmsg k else raise_reserved_instruction mach k

-- The state after a `send` whose result is not used.
unfoldable pub sent_state : Kernel → Option (Kernel × ℕ) → Kernel
sent_state k none = k
sent_state k (some (k', rval)) = k'

unfoldable pub save_current : Cpu → Kernel → Kernel
save_current cpu k = record k {
  mem = record (k.mem) { t_s = update k.mem.t_s k.current_thread cpu };
}

-- The local `msg` of `syscall_other`.
unfoldable pub write_call : Ptr → Cpu → Kernel → Kernel
write_call at cpu k = record k {
  words =
      update
        (update (update (update k.words (word_at at 0) cpu.a1) (word_at at 1) cpu.a2) (word_at at 2)
          cpu.a3)
        (word_at at 3) cpu.a4;
}

-- `syscall_other`, the arguments being those of the saved state.
unfoldable pub syscall_other : Machine → Kernel → Outcome
unfolding save_current write_call sent_state
syscall_other mach k =
    let process = k.mem.t_pcb k.current_thread in
    let to_sys = write_call mach.frame k.sysbk_old (save_current k.sysbk_old k) in
    let repeated = record (k.sysbk_old) { pc = sub_word k.sysbk_old.pc 4 } in
    let to_pgm = save_current repeated k in
    if k.mem.sys_mgr process == null
    then (if k.mem.pgm_mgr process == null
        then panics (terminate_thread mach k)
        else block_current (
            sent_state to_pgm
              (send (k.mem.pgm_mgr process) k.current_thread (t_s_at k.current_thread) to_pgm)))
    else block_current
        (sent_state to_sys (send (k.mem.sys_mgr process) k.current_thread mach.frame to_sys))

unfoldable pub syscall_h : Machine → Kernel → Outcome
unfolding raise_reserved_instruction send_kernel recv_kernel syscall_other
syscall_h mach k =
    if k.sysbk_old.a1 == sys_err
    then raise_reserved_instruction mach k
    else (if k.sysbk_old.a1 == sys_send
        then send_kernel mach k.sysbk_old.a2 k.sysbk_old.a3 k
        else (if k.sysbk_old.a1 == sys_recv
            then recv_kernel mach k.sysbk_old.a2 k.sysbk_old.a3 k
            else syscall_other mach k))
