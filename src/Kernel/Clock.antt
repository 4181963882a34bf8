-- ===== src/Kernel/Clock.antt =====
-- clock/accounting.c and the queue of SSI/services/wait_for_clock.c. The system call by which the
-- nucleus itself sends a message is an instruction of the machine, and a parameter here.
pub mod Laws
pub mod Account
pub mod Words
use os_unibo.Base.{
  ℕ, zero, suc, ◌+◌, ◌-◌, Ptr, null, Bool, ltb, leb, ◌&&◌, Option, none, some, ◌==◌, if◌then◌else◌,
}
use os_unibo.Mikabooq.{Mem, t_wait4clock}
use os_unibo.Mikabooq.Thread.{thread_enqueue, thread_dequeue}
use os_unibo.Kernel.{Kernel, add_word, sub_word, on_mem}

abbrev pub pseudoclock_tick : ℕ
pseudoclock_tick = 100

-- `pseudoclock >= PSEUDOCLOCK_TICK`, as a comparison of signed integers.
unfoldable pub tick_over : ℕ → Bool
tick_over clock = leb pseudoclock_tick clock && ltb clock 0x8000_0000

-- `msgsend(to_resume, NULL)` for every thread that waits for the clock. `none` means that the fuel
-- ran out.
unfoldable pub wake_all : (msgsend : Ptr → ℕ → Kernel → Kernel) → ℕ → Kernel → Option Kernel
wake_all msgsend zero k = none
wake_all msgsend (suc fuel) k =
    let (m', to_resume) = thread_dequeue t_wait4clock k.mem in
    let rest = wake_all msgsend fuel (msgsend to_resume 0 (record k { mem = m' })) in
    if to_resume == null then some (record k { mem = m' }) else rest

-- `update_clock`. There are `max_thread` threads and the SSI.
unfoldable pub update_clock : (msgsend : Ptr → ℕ → Kernel → Kernel) → ℕ → Kernel → Option Kernel
unfolding add_word sub_word tick_over
update_clock msgsend milliseconds k =
    let clock = add_word k.pseudoclock milliseconds in
    let rest = wake_all msgsend 32 (record k { pseudoclock = sub_word clock pseudoclock_tick }) in
    if tick_over clock then rest else some (record k { pseudoclock = clock })

-- `wait_for_clock_s`
unfoldable pub wait_for_clock_s : Ptr → Kernel → Kernel
wait_for_clock_s applicant k = on_mem (thread_enqueue applicant t_wait4clock) k

-- `accountant`: the loop counts how often 1000 cycles can be taken away before the signed number is
-- no longer positive.
unfoldable pub count_millis : (fuel cycles milliseconds : ℕ) → Option ℕ
count_millis zero cycles milliseconds = none
count_millis (suc fuel) cycles milliseconds =
    let rest = count_millis fuel (cycles - 1000) (milliseconds + 1) in
    if cycles == 0 then some milliseconds else rest

-- `accountant`. The run time is an `unsigned int`: from 2^31 up it is a negative `int`, for which the
-- loop does not run (for the first 500 of them the subtraction overflows, and C says nothing). So many rounds see the end of the loop.
unfoldable pub accountant : (thread : Ptr) → Mem → Option ℕ
accountant thread m =
    if ltb (m.run_time thread) 0x8000_0000
    then count_millis 2147485 (m.run_time thread - 500) 0
    else some 0
