-- ===== src/Kernel/Interrupts.antt =====
-- handlers/interrupts.c. The assertion of `acknowledge` that names an undeclared variable is left
-- out, and the word `*p` that `io_h` reads without declaring `p` is an argument.
pub mod Laws
pub mod Device
pub mod Pending
pub mod Turns
use Prim.Native.Nat.{bit_and}
use os_unibo.Base.{
  ltb, ◌&&◌, ℕ, zero, suc, ◌+◌, ◌/◌, ◌^◌, Ptr, null, update, Option, none, some, ◌==◌,
  if◌then◌else◌,
}
use os_unibo.Mikabooq.{readyq}
use os_unibo.Mikabooq.Thread.{thread_enqueue}
use os_unibo.Kernel.{Kernel, Outcome, out_of_fuel, loads, panics, undefined, add_word}
use os_unibo.Mikabooq.Layout.{ssi_thread}
use os_unibo.Kernel.Message.{send, send_success}
use os_unibo.Kernel.Clock.{update_clock}
use os_unibo.Kernel.Scheduler.{scheduler}
use os_unibo.Ssi.Io.{terminal_requester_index}

-- The running thread goes to the end of the ready queue with its registers saved. What is printed
-- is left out.
unfoldable pub preempt : Kernel → Kernel
unfolding add_word
preempt k =
    let t = k.current_thread in
    let m = record (k.mem) {
      t_s = update k.mem.t_s t k.int_old;
      run_time = update k.mem.run_time t (add_word (k.mem.run_time t) k.clock_per_timeslice);
    } in
    if t == null then k else record k { mem = thread_enqueue t readyq m }

unfoldable pub schedule_after : Option Kernel → Outcome
schedule_after none = out_of_fuel
schedule_after (some k) = scheduler k

unfoldable pub interval_timer_h : (msgsend : Ptr → ℕ → Kernel → Kernel) → Kernel → Outcome
unfolding preempt schedule_after
interval_timer_h msgsend k =
    let k' = preempt k in schedule_after (update_clock msgsend k'.clock_per_timeslice k')

-- `DEV_C_ACK`
abbrev pub dev_c_ack : ℕ
dev_c_ack = 1

-- What follows the message to the thread that waited for the device.
unfoldable pub acknowledged : (requester_index : ℕ) → Option (Kernel × ℕ) → Outcome
acknowledged requester_index none = undefined
acknowledged requester_index (some (k, rval)) =
    let k' = record k { soft_blocked_thread = update k.soft_blocked_thread requester_index null } in
    if rval == send_success
    then (if k.is_idle == 0 then loads k.int_old k' else scheduler (record k' { is_idle = 0 }))
    else panics k

unfoldable pub acknowledge : (command_address : Ptr) (requester_index : ℕ) → Kernel → Outcome
unfolding acknowledged
acknowledge command_address requester_index k =
    let k' = record k { words = update k.words command_address dev_c_ack } in
    let sent =
      acknowledged requester_index
        (send (k.soft_blocked_thread requester_index) ssi_thread null k') in
    if k.soft_blocked_thread requester_index == null then panics k' else sent

-- The inner loop of `io_h`: `left` devices of the line, from `j` on. The first device that has an
-- interrupt pending ends the handler.
unfoldable pub scan_devices : (left j pending : ℕ) (found : Outcome) (next : Outcome) → Outcome
scan_devices zero j pending found next = next
scan_devices (suc left) j pending found next =
    let rest = scan_devices left (j + 1) pending found next in
    if bit_and (pending / 2 ^ j) 1 == 1 then found else rest

-- The outer loop, which reads the same word for each of its lines.
unfoldable pub scan_lines : (lines pending : ℕ) (found none_found : Outcome) → Outcome
unfolding scan_devices
scan_lines zero pending found none_found = none_found
scan_lines (suc lines) pending found none_found =
    scan_devices 8 0 pending found (scan_lines lines pending found none_found)

unfoldable pub io_h : (pending : ℕ) (command_address : Ptr) → Kernel → Outcome
unfolding scan_lines acknowledge
io_h pending command_address k =
    scan_lines 5 pending (acknowledge command_address terminal_requester_index k) (panics k)

-- `interrupt_h`: `timer` is what `getTIMER` returns, `pending` the
-- word of the pending devices, and `command_address` the register of the terminal.
unfoldable pub interrupt_h :
    (msgsend : Ptr → ℕ → Kernel → Kernel) (pending : ℕ) (command_address : Ptr) → Kernel → Outcome
unfolding interval_timer_h io_h
interrupt_h msgsend pending command_address k =
    let k' = record k { time_slice_left = k.timer } in
    if ltb 0 k.timer && ltb k.timer k.clock_per_timeslice
    then io_h pending command_address k'
    else interval_timer_h msgsend k'
