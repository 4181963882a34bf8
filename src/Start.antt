-- ===== src/Start.antt =====
-- init.c, `load_readyq` of scheduler.c, and the thread of the tests, which it loads
-- (tests/debug_tests.c).
pub mod Load
pub mod Laws
use Prim.Native.Nat.{bit_or}
use os_unibo.Base.{ℕ, ◌*◌, ◌%◌, ◌<◌, Ptr, null, ltb, if◌then◌else◌}
use os_unibo.Mikabooq.{Cpu, Mem}
use os_unibo.Mikabooq.Layout.{root, ssi_thread}
use os_unibo.Mikabooq.Thread.{thread_alloc}
use os_unibo.Boot.{static_heads, init_descriptors, ssi_descriptor_init, all_int_disable}
use os_unibo.Kernel.{Kernel, Outcome, word_size}
use os_unibo.Kernel.Scheduler.{init_and_load, scheduler}

abbrev pub status_sys_mode : ℕ
status_sys_mode = 0x1f

-- The addresses of the functions that the machine jumps to, and the registers of the bus that tell
-- the end of the memory and the clock ticks of a microsecond. `stst n` is the state that the `STST`
-- number `n` stores.
pub record Image : Type 0 where
  pub interrupt_at : ℕ
  pub tlbtrap_at : ℕ
  pub pgmtrap_at : ℕ
  pub syscall_at : ℕ
  pub ssi_at : ℕ
  pub test_at : ℕ
  pub ram_top : ℕ
  pub time_scale : ℕ
  pub stst : ℕ → Cpu

-- The states that the machine loads when an exception is raised.
pub record NewAreas : Type 0 where
  pub int_new : Cpu
  pub tlb_new : Cpu
  pub pgmtrap_new : Cpu
  pub sysbk_new : Cpu

-- `STATUS_ALL_INT_DISABLE(STATUS_SYS_MODE)`
unfoldable pub closed_status : ℕ
closed_status = bit_or status_sys_mode all_int_disable

-- `LOAD_NEW_STATE`
unfoldable pub load_new_state : (stst : Cpu) (ram_top handler : ℕ) → Cpu
unfolding closed_status
load_new_state stst ram_top handler = record stst {
  pc = handler;
  sp = ram_top;
  cpsr = closed_status;
}

unfoldable pub states_init : Image → NewAreas
unfolding load_new_state
states_init im = record {
  int_new = load_new_state (im.stst 0) im.ram_top im.interrupt_at;
  tlb_new = load_new_state (im.stst 1) im.ram_top im.tlbtrap_at;
  pgmtrap_new = load_new_state (im.stst 2) im.ram_top im.pgmtrap_at;
  sysbk_new = load_new_state (im.stst 3) im.ram_top im.syscall_at;
}

unfoldable pub time_init : Image → Kernel → Kernel
time_init im k = record k { clock_per_timeslice = (im.time_scale * 5000) % word_size }

-- The whole of `ssi_thread_init`.
unfoldable pub ssi_thread_init : Kernel → Kernel × Ptr
ssi_thread_init k = (
  record k {
    mem = ssi_descriptor_init k.mem;
    soft_blocked_thread = λ i. if ltb i 5 then null else k.soft_blocked_thread i;
  },
  ssi_thread,
)

-- The thread of the tests; `n` is the number of its stack.
unfoldable pub p2test_init : Image → (n : ℕ) → Ptr → Kernel → Kernel × ℕ
unfolding closed_status init_and_load
p2test_init im n root k =
    let (m', thread_test) = thread_alloc root k.mem in
    init_and_load (im.stst 5) im.ram_top n thread_test im.test_at closed_status
      (record k { mem = m' })

unfoldable pub load_readyq : Image → Ptr → Kernel → Kernel
unfolding ssi_thread_init p2test_init
load_readyq im root k =
    let (k', to_load) = ssi_thread_init k in
    let (loaded, n) = init_and_load (im.stst 4) im.ram_top 1 to_load im.ssi_at closed_status k' in
    (p2test_init im n root loaded).0

-- The global variables before `main`: what is not initialised in the sources is zero.
unfoldable pub static_init : Kernel → Kernel
static_init k = record k {
  mem = static_heads k.mem;
  current_thread = null;
  thread_count = 0;
  soft_block_count = 0;
  soft_blocked_thread = λ _. null;
  is_idle = 0;
  clock_per_timeslice = 5000;
  time_slice_left = 0;
  pseudoclock = 0;
}

-- `main` does not return: its outcome is that of the scheduler.
unfoldable pub main : Image → Kernel → NewAreas × Outcome
unfolding states_init time_init load_readyq static_init
main im k =
    let k' = static_init k in
    let described = record k' { mem = init_descriptors k'.mem } in
    (states_init im, scheduler (load_readyq im root (time_init im described)))
