-- ===== src/Kernel/Receive/Laws.antt =====
-- `recv` against the abstract receive.
use os_unibo.Base.{
  ◌≡◌, ◌≢◌, inl, inr, refl, Ptr, null, update, Bool, not, pos, List, [], ◌∷◌, ◌++◌, ◌==◌, ℕ, some,
  none, Option, if◌then◌else◌, arith, Bool-cases,
}
use os_unibo.Mikabooq.{Mem, t_wait4clock, t_sched, t_msgq, t_status_none, t_status_w4msg}
use os_unibo.Mikabooq.Layout.{IsReceiver}
use os_unibo.Mikabooq.Thread.{thread_enqueue}
use os_unibo.Mikabooq.Msgq.{Got, msgq_get}
use os_unibo.Mikabooq.Msgq.Mailbox.{Mailbox, mailbox, receive}
use os_unibo.Mikabooq.Msgq.Free.{Taken}
use os_unibo.Mikabooq.Msgq.Get.{Gets, msgq_get-Gets}
use os_unibo.Mikabooq.Valid.{Valid, IsSchedQueue, Valid-fields, Valid-Msgs}
use os_unibo.Mikabooq.Sched.{thread_enqueue-Valid}
use os_unibo.Listx.Queues.{IsLoose}
use os_unibo.Kernel.{Kernel, loads}
use os_unibo.Kernel.Clock.Laws.{clocked, update_clock-quiet}
use os_unibo.Kernel.Scheduler.{scheduler}
use os_unibo.Kernel.Receive.{
  recv, after_get, received, write_stored, store_return_value, start_waiting, wait_queue, block,
  block_on, is_zero,
}

-- The state in which the running thread waits, before the scheduler runs.
abbrev pub asleep : (sender : Ptr) → Kernel → Kernel
asleep sender k =
    let k' = start_waiting sender k in
    record k' {
      pseudoclock = clocked k.timer k';
      mem = thread_enqueue k.current_thread (wait_queue sender) k'.mem;
    }

module _ {is_head : Ptr → Bool} {q : Ptr → List Ptr} (k : Kernel) (v : Valid is_head q k.mem)
    (running : IsReceiver k.current_thread)
    (in_use : k.mem.t_status k.current_thread ≢ t_status_none) (msgsend : Ptr → ℕ → Kernel → Kernel)
    (sender pmsg : Ptr) where
  abbrev pub own_box : Mailbox
  own_box = mailbox k.mem (q (t_msgq k.current_thread))

  gets :
      Gets is_head q k.mem k.current_thread
        (some sender)
        (not (pmsg == null))
        (receive sender own_box)
        (msgq_get (some sender) k.current_thread (not (pmsg == null)) k.mem)
  gets = msgq_get-Gets v.msgs k.current_thread running (not (pmsg == null)) (some sender)

  after_get-loads :
      (from : Ptr) (value : ℕ) (m' : Mem) (r : Option (Mem × Got))
      → r
        ≡ some (
          m',
          record {
            code = pos 0;
            sender = some from;
            stored = if not (pmsg == null) then some value else none;
          },
        )
      → let saved = record (k.sysbk_old) { a1 = from } in
        after_get msgsend pmsg r k
        ≡ loads saved (record k {
          mem = m';
          words = if pmsg == null then k.words else update k.words pmsg value;
          sysbk_old = saved;
        })
  unfolding after_get received is_zero write_stored store_return_value
  after_get-loads from value m' r e = elim (Bool-cases (pmsg == null)) [
    | inl n ↦ rw (e, n) refl
    | inr n ↦ rw (e, n) refl
  ]

  -- Where the abstract receive finds a message of the wanted sender, the running thread goes on:
  -- the call returns who sent it, its payload is stored unless the pointer is NULL, and the message
  -- has left the mailbox.
  pub recv-Taken :
      (from : Ptr) (value : ℕ) (rest : Mailbox)
      → receive sender own_box ≡ some ((from, value), rest)
      → (m' : Mem) × (let saved = record (k.sysbk_old) { a1 = from } in
          recv msgsend sender pmsg k
          ≡ loads saved (record k {
            mem = m';
            words = if pmsg == null then k.words else update k.words pmsg value;
            sysbk_old = saved;
          }))
        × (taken : Taken is_head q k.mem k.current_thread rest m') × Valid is_head taken.q' m'
  unfolding recv
  recv-Taken from value rest e =
      let (m', run, taken) = rw e at gets in
      (
        m',
        after_get-loads from value m' _ run,
        taken,
        Valid-Msgs m' k.current_thread v running
            (λ t. ground (arith, in_use, v.threads.unused k.current_thread t)) taken.valid
            taken.others taken.parents taken.pcbs taken.statuses,
      )

  waiting-Valid : Valid is_head q (start_waiting sender k).mem
  unfolding start_waiting
  waiting-Valid =
      Valid-fields _ v
        (record {
          parents = refl;
          pcbs = refl;
          senders = refl;
          unused = λ t i e. ground (arith, in_use, v.threads.unused t i e);
          used = λ t i e. ground arith;
        })
        refl

  -- Where the abstract receive finds no message, nobody waits for the clock, and the sender is
  -- anybody, the SSI or a thread in use, so that its queue is one of threads, the running thread is
  -- marked as waiting for the sender, becomes the last of the queue of those who wait for it, and
  -- the scheduler runs on sound tables.
  pub recv-asleep :
      receive sender own_box ≡ none
      → q t_wait4clock ≡ []
      → IsSchedQueue is_head k.mem (wait_queue sender)
      → IsLoose is_head q (t_sched k.current_thread)
      → (recv msgsend sender pmsg k ≡ scheduler (asleep sender k))
        × ((asleep sender k).mem.t_status k.current_thread ≡ t_status_w4msg)
        × ((asleep sender k).mem.t_wait4sender k.current_thread ≡ sender)
        × ((asleep sender k).mem.t_s k.current_thread ≡ k.sysbk_old)
        × Valid is_head
            (update q (wait_queue sender) (q (wait_queue sender) ++ t_sched k.current_thread ∷ []))
            (asleep sender k).mem
  unfolding recv after_get block block_on is_zero
  recv-asleep e none_waits sched loose =
      let run = rw e at gets in
      (
        rw
            (
              run,
              update_clock-quiet (start_waiting sender k) waiting-Valid msgsend k.timer none_waits,
            )
            (unfold start_waiting in refl),
        unfold start_waiting thread_enqueue in ground arith,
        unfold start_waiting thread_enqueue in ground arith,
        unfold start_waiting thread_enqueue in ground arith,
        unfold start_waiting in
            thread_enqueue-Valid waiting-Valid (wait_queue sender)
              (record { is = sched.is; place = sched.place }) k.current_thread running loose,
      )
