-- ===== src/Tests/Kernel.antt =====
-- The nucleus just after the start, with the SSI ready or waiting.
use os_unibo.Base.{
  ◌≡◌, ◌≢◌, inl, inr, refl, Ptr, null, update, List, [], ◌∷◌, ◌++◌, some, arith, ap, has-append,
  ◌≤◌,
}
use os_unibo.Listx.Queues.{IsLoose}
use os_unibo.Mikabooq.{
  Mem, message_h, readyq, blockedq, t_wait4clock, t_msgq, t_sched, t_status_w4msg, t_status_ready,
  thread,
}
use os_unibo.Mikabooq.Layout.{ssi_thread, IsReceiver}
use os_unibo.Mikabooq.Thread.{thread_enqueue}
use os_unibo.Mikabooq.Msgq.Mailbox.{mailbox}
use os_unibo.Mikabooq.Msgq.Add.{Delivered}
use os_unibo.Mikabooq.Valid.{Valid, IsSchedQueue, Valid-fields}
use os_unibo.Mikabooq.Sched.{thread_enqueue-Valid}
use os_unibo.Boot.{boot, ssi_descriptor_init}
use os_unibo.Boot.Heads.{heads, queues, series_down}
use os_unibo.Boot.Loose.{sched-IsLoose}
use os_unibo.Boot.Valid.{boot_heads, boot_queues, boot-Valid}
use os_unibo.Kernel.{Kernel, add_word}
use os_unibo.Kernel.Scheduler.{scheduler}
use os_unibo.Kernel.Scheduler.Laws.{Runs, scheduler-Runs}
use os_unibo.Kernel.Message.{send, send_success}
use os_unibo.Kernel.Message.Laws.{Resumed, send-Resumed, send-Delivered}
use os_unibo.Kernel.Interrupts.{interval_timer_h}
use os_unibo.Kernel.Clock.Laws.{clocked}
use os_unibo.Kernel.Interrupts.Laws.{interval_timer_h-Runs}
use os_unibo.Tests.Blank.{zero_cpu, blank, booted}

abbrev pub with_mem : Mem → Kernel
with_mem m = record {
  mem = m;
  words = λ _. 0;
  current_thread = ssi_thread;
  thread_count = 1;
  soft_block_count = 0;
  soft_blocked_thread = λ _. 0;
  is_idle = 0;
  clock_per_timeslice = 5000;
  time_slice_left = 0;
  pseudoclock = 0;
  timer = 0;
  int_old = zero_cpu;
  tlb_old = zero_cpu;
  pgmtrap_old = zero_cpu;
  sysbk_old = zero_cpu;
}

pub ssi-IsReceiver : IsReceiver ssi_thread
ssi-IsReceiver = omega arith

pub some_free : boot_queues message_h ≢ []
unfolding queues series_down
some_free = λ e. cc

ready-nil : boot_queues readyq ≡ []
unfolding queues
ready-nil = ground arith

pub clock-nil : boot_queues t_wait4clock ≡ []
unfolding queues
clock-nil = ground arith

pub ssi-IsLoose : IsLoose boot_heads boot_queues (t_sched ssi_thread)
ssi-IsLoose = sched-IsLoose ssi_thread ssi-IsReceiver

pub ssi_state :
    (booted.t_status ssi_thread ≡ t_status_ready) × (booted.t_wait4sender ssi_thread ≡ null)
unfolding boot ssi_descriptor_init
ssi_state = (ground arith, ground arith)

abbrev pub quiet : Kernel
quiet = with_mem booted

-- The SSI, the one thread, is preempted and runs again.
interval_timer_h-Runs_example :
    (k' : Kernel) × (k' ≡ record quiet {
      mem = record (quiet.mem) {
        links = k'.mem.links;
        t_s = update quiet.mem.t_s ssi_thread quiet.int_old;
        run_time =
            update quiet.mem.run_time ssi_thread
              (add_word (quiet.mem.run_time ssi_thread) quiet.clock_per_timeslice);
      };
      pseudoclock = clocked quiet.clock_per_timeslice quiet;
    })
    × Runs boot_heads
        (update boot_queues readyq (boot_queues readyq ++ t_sched ssi_thread ∷ []))
        k'
        (t_sched ssi_thread)
        []
        (interval_timer_h (λ t msg k. k) quiet)
interval_timer_h-Runs_example =
    interval_timer_h-Runs quiet (boot-Valid blank) ssi-IsReceiver ssi-IsLoose (λ t msg k. k)
      clock-nil (t_sched ssi_thread) [] (ap (λ xs. xs ++ t_sched ssi_thread ∷ []) ready-nil)

-- The SSI in the ready queue.
abbrev pub ready : Mem
ready = thread_enqueue ssi_thread readyq booted

abbrev pub ready_queues : Ptr → List Ptr
ready_queues = update boot_queues readyq (boot_queues readyq ++ t_sched ssi_thread ∷ [])

pub sched_queue : (k : Ptr) → readyq ≤ k → k ≤ t_wait4clock → IsSchedQueue boot_heads booted k
unfolding heads
sched_queue k l u = record { is = ground arith; place = inl (l, u) }

pub ready-Valid : Valid boot_heads ready_queues ready
ready-Valid =
    thread_enqueue-Valid (boot-Valid blank) readyq (sched_queue readyq (omega arith) (omega arith))
      ssi_thread ssi-IsReceiver ssi-IsLoose

ready_first : ready_queues readyq ≡ t_sched ssi_thread ∷ []
ready_first = ap (λ xs. xs ++ t_sched ssi_thread ∷ []) ready-nil

scheduler-Runs_example :
    Runs boot_heads ready_queues
      (with_mem ready)
      (t_sched ssi_thread)
      []
      (scheduler (with_mem ready))
scheduler-Runs_example =
    scheduler-Runs (with_mem ready) ready-Valid (t_sched ssi_thread) [] ready_first

-- The SSI waits for anybody.
abbrev pub blocked : Mem
blocked = record (thread_enqueue ssi_thread blockedq booted) {
  t_status = update (booted.t_status) ssi_thread t_status_w4msg;
}

abbrev pub blocked_queues : Ptr → List Ptr
blocked_queues = update boot_queues blockedq (boot_queues blockedq ++ t_sched ssi_thread ∷ [])

pub blocked-Valid : Valid boot_heads blocked_queues blocked
unfolding thread_enqueue
blocked-Valid =
    Valid-fields _
      (thread_enqueue-Valid (boot-Valid blank) blockedq
        (sched_queue blockedq (omega arith) (omega arith)) ssi_thread ssi-IsReceiver ssi-IsLoose)
      (record {
        parents = refl;
        pcbs = refl;
        senders = refl;
        unused = λ t i e. ground arith;
        used = λ t i e. ground arith;
      })
      refl

send-Resumed_example :
    (k' : Kernel) × (send ssi_thread (thread 0) 7 (with_mem blocked) ≡ some (k', send_success))
    × Resumed boot_heads blocked_queues (with_mem blocked) ssi_thread (thread 0) blockedq 7 k'
unfolding thread_enqueue
send-Resumed_example =
    send-Resumed (with_mem blocked) blocked-Valid ssi_thread (thread 0) 7 ssi-IsReceiver blockedq
      (record {
        is = (sched_queue blockedq (omega arith) (omega arith)).is;
        place = inl (omega arith, omega arith);
      })
      (ground
        (arith, has-append (t_sched ssi_thread) (boot_queues blockedq) (t_sched ssi_thread ∷ [])))
      (ground arith) (inr ssi_state.1)

send-Delivered_example :
    (m' : Mem) × (send ssi_thread (thread 0) 7 quiet
      ≡ some (record quiet { mem = m' }, send_success))
    × (sent : Delivered boot_heads boot_queues booted ssi_thread
        (mailbox booted (boot_queues (t_msgq ssi_thread)) ++ (thread 0, 7) ∷ [])
        m')
    × Valid boot_heads sent.q' m'
send-Delivered_example =
    send-Delivered quiet (boot-Valid blank) ssi_thread (thread 0) 7 ssi-IsReceiver (inl ssi_state.0)
      (λ e. omega arith) some_free

boot-Valid_example : Valid boot_heads boot_queues booted
boot-Valid_example = boot-Valid blank
