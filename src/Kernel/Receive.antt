-- ===== src/Kernel/Receive.antt =====
-- handlers/syscall.c: receiving a message.
pub mod Laws
use os_unibo.Base.{
  ℕ, zero, suc, Ptr, null, update, Bool, true, false, not, ℤ, pos, negsuc, Option, none, some, ◌==◌,
  if◌then◌else◌,
}
use os_unibo.Mikabooq.{Cpu, Mem, blockedq, t_wait4me, t_status_w4msg}
use os_unibo.Mikabooq.Thread.{thread_enqueue}
use os_unibo.Mikabooq.Msgq.{Got, msgq_get}
use os_unibo.Kernel.{Kernel, Outcome, loads, out_of_fuel, add_word}
use os_unibo.Kernel.Clock.{update_clock}
use os_unibo.Kernel.Scheduler.{scheduler}

-- `store_return_value`, in the saved state of the system call.
unfoldable pub store_return_value : ℕ → Kernel → Kernel
store_return_value rval k = record k { sysbk_old = record (k.sysbk_old) { a1 = rval } }

-- `*pmsg`, where `msgq_get` wrote through the pointer.
unfoldable pub write_stored : Ptr → Option ℕ → Kernel → Kernel
write_stored pmsg none k = k
write_stored pmsg (some value) k = record k { words = update k.words pmsg value }

abbrev or_null : Option Ptr → Ptr
or_null none = null
or_null (some p) = p

-- The case that does not block: the return value is the sender.
unfoldable pub received : Ptr → Mem → Got → Kernel → Outcome
unfolding store_return_value write_stored
received pmsg m got k =
    let k' =
      store_return_value (or_null got.sender)
        (write_stored pmsg got.stored (record k { mem = m })) in
    loads k'.sysbk_old k'

-- The fields of a thread that begins to wait for `sender`, with what is left of its time slice.
unfoldable pub start_waiting : (sender : Ptr) → Kernel → Kernel
unfolding add_word
start_waiting sender k =
    let t = k.current_thread in
    record k {
      time_slice_left = k.timer;
      mem = record (k.mem) {
        t_s = update k.mem.t_s t k.sysbk_old;
        t_status = update k.mem.t_status t t_status_w4msg;
        t_wait4sender = update k.mem.t_wait4sender t sender;
        run_time = update k.mem.run_time t (add_word (k.mem.run_time t) k.timer);
      };
    }

-- The queue in which a thread waits for `sender`.
unfoldable pub wait_queue : (sender : Ptr) → Ptr
wait_queue sender = if sender == null then blockedq else t_wait4me sender

unfoldable pub block_on : (sender : Ptr) → Option Kernel → Outcome
unfolding wait_queue
block_on sender none = out_of_fuel
block_on sender (some k) =
    scheduler (record k { mem = thread_enqueue k.current_thread (wait_queue sender) k.mem })

-- The case that blocks.
unfoldable pub block : (msgsend : Ptr → ℕ → Kernel → Kernel) (sender : Ptr) → Kernel → Outcome
unfolding start_waiting block_on
block msgsend sender k = block_on sender (update_clock msgsend k.timer (start_waiting sender k))

unfoldable pub is_zero : ℤ → Bool
is_zero (pos c) = c == 0
is_zero (negsuc c) = false

unfoldable pub after_get :
    (msgsend : Ptr → ℕ → Kernel → Kernel) (pmsg : Ptr) → Option (Mem × Got) → Kernel → Outcome
unfolding received block is_zero
after_get msgsend pmsg none k = out_of_fuel
after_get msgsend pmsg (some (m, got)) k =
    if is_zero got.code
    then received pmsg m got k
    else block msgsend (or_null got.sender) (record k { mem = m })

unfoldable pub recv : (msgsend : Ptr → ℕ → Kernel → Kernel) (sender pmsg : Ptr) → Kernel → Outcome
unfolding after_get
recv msgsend sender pmsg k =
    after_get msgsend pmsg (msgq_get (some sender) k.current_thread (not (pmsg == null)) k.mem) k
