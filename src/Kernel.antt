-- ===== src/Kernel.antt =====
-- The state of the nucleus: the tables, the global variables of scheduler.c, clock/ and SSI/, the
-- areas in which the machine saves the processor when an exception is raised, and the timer.
pub mod Clock
pub mod Scheduler
pub mod Message
pub mod Receive
pub mod Trap
pub mod Syscall
pub mod Interrupts
use os_unibo.Base.{ℕ, ◌+◌, ◌-◌, ◌*◌, ◌%◌, ◌^◌, Ptr}
use os_unibo.Mikabooq.{Cpu, Mem}

pub record Kernel : Type 0 where
  pub mem : Mem
  -- The words of memory that belong to no descriptor.
  pub words : Ptr → ℕ
  pub current_thread : Ptr
  pub thread_count : ℕ
  pub soft_block_count : ℕ
  pub soft_blocked_thread : ℕ → Ptr
  pub is_idle : ℕ
  pub clock_per_timeslice : ℕ
  pub time_slice_left : ℕ
  pub pseudoclock : ℕ
  pub timer : ℕ
  pub int_old : Cpu
  pub tlb_old : Cpu
  pub pgmtrap_old : Cpu
  pub sysbk_old : Cpu

-- How a handler gives up the processor: it loads a processor state (`LDST`), halts or panics, or
-- waits for an interrupt. `undefined` is what the C code leaves undefined, and `out_of_fuel` a loop
-- that was cut short.
pub data Outcome : Type 0 where
  loads : Cpu → Kernel → Outcome
  halts : Kernel → Outcome
  panics : Kernel → Outcome
  waits : Kernel → Outcome
  undefined : Outcome
  out_of_fuel : Outcome

-- Arithmetic of `unsigned int`.
abbrev pub word_size : ℕ
word_size = 2 ^ 32

unfoldable pub add_word : ℕ → ℕ → ℕ
add_word a b = (a + b) % word_size

unfoldable pub sub_word : ℕ → ℕ → ℕ
sub_word a b = (a + word_size - b) % word_size

abbrev pub on_mem : (Mem → Mem) → Kernel → Kernel
on_mem f k = record k { mem = f k.mem }

-- The system call instructions that the nucleus itself executes, each a function to the state in
-- which it returns; the address of the local variables of the handler; and the layout of `state_t`.
pub record Machine : Type 0 where
  pub msgsend : (dest : Ptr) (payload : ℕ) → Kernel → Kernel
  pub msgrecv : (source reply : Ptr) → Kernel → Kernel
  pub frame : Ptr
  pub read_state : (words : Ptr → ℕ) → Ptr → Cpu

-- The word `i` of the memory at `p`.
abbrev pub word_at : Ptr → ℕ → Ptr
word_at p i = p + 4 * i
