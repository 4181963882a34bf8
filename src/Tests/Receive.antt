-- ===== src/Tests/Receive.antt =====
-- Receiving, and the end of an I/O operation.
use os_unibo.Base.{
  ◌≡◌, ◌≢◌, inl, refl, ap, ◌∙◌, ℕ, Ptr, null, update, List, [], ◌∷◌, ◌++◌, some, arith, ◌==◌,
  if◌then◌else◌,
}
use os_unibo.Mikabooq.{Mem, blockedq, t_msgq, t_sched, t_status_w4msg, thread}
use os_unibo.Mikabooq.Layout.{ssi_thread}
use os_unibo.Mikabooq.Msgq.Mailbox.{mailbox, receive, take_first}
use os_unibo.Mikabooq.Msgq.Free.{Taken}
use os_unibo.Mikabooq.Valid.{Valid}
use os_unibo.Boot.Heads.{queues}
use os_unibo.Boot.Valid.{boot_heads, boot_queues, boot-Valid}
use os_unibo.Kernel.{Kernel, loads}
use os_unibo.Kernel.Scheduler.{scheduler}
use os_unibo.Kernel.Message.Laws.{send-Delivered}
use os_unibo.Kernel.Message.{send, send_success}
use os_unibo.Mikabooq.Msgq.Add.{Delivered}
use os_unibo.Kernel.Receive.{recv, wait_queue}
use os_unibo.Kernel.Receive.Laws.{asleep, recv-Taken, recv-asleep}
use os_unibo.Tests.Blank.{zero_cpu, blank, booted}
use os_unibo.Tests.Kernel.{
  with_mem, quiet, ssi-IsReceiver, ssi-IsLoose, ssi_state, clock-nil, sched_queue, blocked,
  some_free,
}

no_send : Ptr → ℕ → Kernel → Kernel
no_send t msg k = k

ssi_box : boot_queues (t_msgq ssi_thread) ≡ []
unfolding queues
ssi_box = ground arith

ssi_in_use : booted.t_status ssi_thread ≢ 0
ssi_in_use = λ e. ground (arith, ssi_state)

-- Thread 0 has sent 7 to the SSI.
abbrev sent :
    (m' : Mem) × (send ssi_thread (thread 0) 7 quiet
      ≡ some (record quiet { mem = m' }, send_success))
    × (sent : Delivered boot_heads boot_queues booted ssi_thread
        (mailbox booted (boot_queues (t_msgq ssi_thread)) ++ (thread 0, 7) ∷ [])
        m')
    × Valid boot_heads sent.q' m'
sent =
    send-Delivered quiet (boot-Valid blank) ssi_thread (thread 0) 7 ssi-IsReceiver (inl ssi_state.0)
      (λ e. omega arith) some_free

abbrev sent_mem : Mem
sent_mem = sent.0

abbrev sent_queues : Ptr → List Ptr
sent_queues = sent.2.q'

sent_box : mailbox sent_mem (sent_queues (t_msgq ssi_thread)) ≡ (thread 0, 7) ∷ []
sent_box = sent.2.delivered ∙ ap (λ xs. mailbox booted xs ++ (thread 0, 7) ∷ []) ssi_box

-- The SSI receives what thread 0 sent.
recv-Taken_example :
    (m' : Mem) × (let saved = record zero_cpu { a1 = thread 0 } in
      recv no_send null 2000 (with_mem sent_mem)
      ≡ loads saved (record (with_mem sent_mem) {
        mem = m';
        words = if 2000 == null then (λ _. 0) else update (λ _. 0) 2000 7;
        sysbk_old = saved;
      }))
    × (taken : Taken boot_heads sent_queues sent_mem ssi_thread [] m') × Valid boot_heads taken.q'
        m'
recv-Taken_example =
    recv-Taken (with_mem sent_mem) sent.3 ssi-IsReceiver
      (λ e. ground (arith, sent.2.statuses, ssi_state)) no_send null 2000 (thread 0) 7 []
      (ap (receive null) sent_box ∙ (unfold receive take_first in refl))

-- The SSI waits for anybody.
recv-asleep_example :
    (recv no_send null 0 quiet ≡ scheduler (asleep null quiet))
    × ((asleep null quiet).mem.t_status ssi_thread ≡ t_status_w4msg)
    × ((asleep null quiet).mem.t_wait4sender ssi_thread ≡ null)
    × ((asleep null quiet).mem.t_s ssi_thread ≡ zero_cpu)
    × Valid boot_heads
        (update boot_queues
          (wait_queue null)
          (boot_queues (wait_queue null) ++ t_sched ssi_thread ∷ []))
        (asleep null quiet).mem
recv-asleep_example =
    recv-asleep quiet (boot-Valid blank) ssi-IsReceiver ssi_in_use no_send null 0
      (ap (λ xs. receive null (mailbox booted xs)) ssi_box ∙ (unfold receive take_first in refl))
      clock-nil (unfold wait_queue in sched_queue blockedq (omega arith) (omega arith)) ssi-IsLoose

-- The SSI blocked on the terminal.
abbrev on_terminal : Kernel
on_terminal = record (with_mem (record blocked { t_wait4sender = λ _. ssi_thread })) {
  soft_blocked_thread = λ _. ssi_thread;
}
