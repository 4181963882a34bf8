-- ===== src/Boot.antt =====
-- The memory that the nucleus starts with: the `LIST_HEAD` sentinels of mikabooq.c, scheduler.c and
-- wait_for_clock.c, the first calls of `main` in init.c, and the descriptor that `ssi_thread_init`
-- of SSI/ssi.c fills.
pub mod Sound
pub mod Heads
pub mod Lists
pub mod Ends
pub mod Loops
pub mod Valid
pub mod Loose
use Prim.Native.Nat.{bit_or}
use os_unibo.Base.{ℕ, Ptr, null, update}
use os_unibo.Listx.{init_list_head}
use os_unibo.Mikabooq.{
  Mem, t_msgq, t_wait4me, thread_h, message_h, readyq, blockedq, t_wait4clock, t_status_ready,
}
use os_unibo.Mikabooq.Layout.{ssi_thread}
use os_unibo.Mikabooq.Proc.{proc_init}
use os_unibo.Mikabooq.Thread.{thread_init}
use os_unibo.Mikabooq.Msgq.{msgq_init}

-- `LIST_HEAD(name)`, the five times that it stands in the sources.
unfoldable pub static_heads : Mem → Mem
static_heads m = record m {
  links = init_list_head t_wait4clock (
      init_list_head blockedq
        (init_list_head readyq (init_list_head message_h (init_list_head thread_h m.links))));
}

-- The first three calls of `main`.
unfoldable pub init_descriptors : Mem → Mem
init_descriptors m = msgq_init (thread_init (proc_init m).0)

-- `STATUS_ALL_INT_DISABLE(0)`: the bits that disable the timer and the other interrupts.
abbrev pub all_int_disable : ℕ
all_int_disable = 0xc0

-- The part of `ssi_thread_init` that fills the descriptor of the SSI.
unfoldable pub ssi_descriptor_init : Mem → Mem
ssi_descriptor_init m = record m {
  links = init_list_head (t_wait4me ssi_thread) (init_list_head (t_msgq ssi_thread) m.links);
  t_pcb = update m.t_pcb ssi_thread null;
  t_status = update m.t_status ssi_thread t_status_ready;
  t_wait4sender = update m.t_wait4sender ssi_thread null;
  t_s =
      update m.t_s ssi_thread
        (record (m.t_s ssi_thread) { cpsr = bit_or (m.t_s ssi_thread).cpsr all_int_disable });
}

unfoldable pub boot : Mem → Mem
boot m = ssi_descriptor_init (init_descriptors (static_heads m))
