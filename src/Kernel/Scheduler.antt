-- ===== src/Kernel/Scheduler.antt =====
-- scheduler.c.
pub mod Laws
use os_unibo.Base.{ℕ, suc, ◌+◌, ◌-◌, ◌*◌, ◌%◌, Ptr, null, update, Bool, ◌==◌, if◌then◌else◌}
use os_unibo.Mikabooq.{Cpu, Mem, readyq}
use os_unibo.Mikabooq.Thread.{thread_enqueue, thread_dequeue}
use os_unibo.Kernel.{
  Kernel, Outcome, loads, halts, panics, waits, add_word, sub_word, word_size, on_mem,
}

abbrev pub frame_size : ℕ
frame_size = 4096

-- `state_init`: `stst` is the state that `STST` stores, `ram_top` the end of the memory, and `n` the
-- number of the stack that the static counter has reached.
unfoldable pub state_init :
    (stst : Cpu) (ram_top n : ℕ) (to_load : Ptr) (target cpsr : ℕ) → Mem → Mem
unfolding sub_word
state_init stst ram_top n to_load target cpsr m = record m {
  t_s = update m.t_s to_load (record stst {
    pc = target;
    sp = sub_word ram_top ((n * frame_size) % word_size);
    cpsr = cpsr;
  });
}

-- The new thread, ready to run, and the next number of a stack.
unfoldable pub init_and_load :
    (stst : Cpu) (ram_top n : ℕ) (to_load : Ptr) (target cpsr : ℕ) → Kernel → Kernel × ℕ
unfolding state_init add_word
init_and_load stst ram_top n to_load target cpsr k = (
  record k {
    mem = thread_enqueue to_load readyq (state_init stst ram_top n to_load target cpsr k.mem);
    thread_count = add_word k.thread_count 1;
  },
  n + 1,
)

-- `empty_readyq_h`. `WAIT` ends in the handler of the next interrupt.
unfoldable pub empty_readyq_h : Kernel → Outcome
empty_readyq_h k =
    if k.thread_count == 1
    then halts k
    else (if k.soft_block_count == 0
        then panics k
        else (if k.is_idle == 0
            then waits (record k { is_idle = 1; timer = k.clock_per_timeslice })
            else panics k))

unfoldable pub scheduler : Kernel → Outcome
unfolding empty_readyq_h
scheduler k =
    let (m', t) = thread_dequeue readyq k.mem in
    let k' = record k { mem = m'; current_thread = t } in
    if t == null
    then empty_readyq_h k'
    else loads (k'.mem.t_s t) (record k' { timer = k.clock_per_timeslice })
