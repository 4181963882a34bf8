-- ===== src/Kernel/Trap/Handover.antt =====
-- How a thread is handed over to its manager: the manager gets a message, and the thread is blocked.
use os_unibo.Base.{
  ◌≡◌, ◌≢◌, ◌⊎◌, inl, sym, ◌∙◌, ap, ℕ, Ptr, null, update, Bool, List, [], ◌∷◌, ◌++◌, some, ◌∈◌,
  arith,
}
use os_unibo.Listx.Queues.{IsLoose}
use os_unibo.Listx.Moves.{move, has-move}
use os_unibo.Mikabooq.{Cpu, readyq, blockedq, t_sched, t_status_w4msg}
use os_unibo.Mikabooq.Layout.{IsReceiver}
use os_unibo.Mikabooq.Thread.{thread_enqueue}
use os_unibo.Mikabooq.Valid.{Valid, IsSchedQueue}
use os_unibo.Mikabooq.Sched.{thread_enqueue-Valid}
use os_unibo.Kernel.{Kernel, Outcome}
use os_unibo.Kernel.Scheduler.{scheduler}
use os_unibo.Kernel.Message.{send, send_success}
use os_unibo.Kernel.Message.Laws.{Resumed, send-Resumed}
use os_unibo.Kernel.Trap.{block_current}

-- The manager waits in the queue `h` for a message of the running thread, or of anybody.
pub record Attends (is_head : Ptr → Bool) (q : Ptr → List Ptr) (k : Kernel) (mgr h : Ptr)
    : Type 0 where
  pub receiver : IsReceiver mgr
  pub other : mgr ≢ k.current_thread
  pub waiting : k.mem.t_status mgr ≡ t_status_w4msg
  pub awaits : (k.mem.t_wait4sender mgr ≡ k.current_thread) ⊎ (k.mem.t_wait4sender mgr ≡ null)
  pub sched : IsSchedQueue is_head k.mem h
  pub queued : t_sched mgr ∈ q h

-- That depends on four fields.
pub Attends-fields :
    {is_head : Ptr → Bool} {q : Ptr → List Ptr} {k : Kernel} (k1 : Kernel) {mgr h : Ptr}
    → k1.mem.t_pcb ≡ k.mem.t_pcb
    → k1.mem.t_status ≡ k.mem.t_status
    → k1.mem.t_wait4sender ≡ k.mem.t_wait4sender
    → k1.current_thread ≡ k.current_thread
    → Attends is_head q k mgr h
    → Attends is_head q k1 mgr h
Attends-fields k1 pcbs statuses awaits current a = record {
  receiver = a.receiver;
  other = rw current a.other;
  waiting = rw statuses a.waiting;
  awaits = rw (awaits, current) a.awaits;
  sched = record { is = a.sched.is; place = rw pcbs a.sched.place };
  queued = a.queued;
}

-- The manager is ready, with the payload from the thread that ran; that thread is blocked with the
-- registers `saved`, and the scheduler decides who runs.
pub record HandedOver (is_head : Ptr → Bool) (q : Ptr → List Ptr) (k : Kernel) (mgr h : Ptr)
    (payload : ℕ) (saved : Cpu) (r : Outcome) : Type 0 where
  pub k' : Kernel
  pub resumed : Resumed is_head q k mgr k.current_thread h payload k'
  pub sysbk : Cpu
  pub outcome :
      r
      ≡ scheduler
          (record k' { mem = thread_enqueue k.current_thread blockedq k'.mem; sysbk_old = sysbk })
  pub registers : (thread_enqueue k.current_thread blockedq k'.mem).t_s k.current_thread ≡ saved
  pub valid :
      Valid is_head
        (update
          (move (t_sched mgr) h readyq q)
          blockedq
          (move (t_sched mgr) h readyq q blockedq ++ t_sched k.current_thread ∷ []))
        (thread_enqueue k.current_thread blockedq k'.mem)

module _ {is_head : Ptr → Bool} {q : Ptr → List Ptr} (k : Kernel) (v : Valid is_head q k.mem)
    (running : IsReceiver k.current_thread) (loose : IsLoose is_head q (t_sched k.current_thread))
    (mgr h : Ptr) (attends : Attends is_head q k mgr h) where
  still-IsLoose : IsLoose is_head (move (t_sched mgr) h readyq q) (t_sched k.current_thread)
  still-IsLoose = record {
    not_head = loose.not_head;
    not_in = λ x ix. ground (
      arith,
      has-move v.msgs.linked (t_sched mgr) h readyq attends.sched.is v.readyq_is attends.queued
          (t_sched k.current_thread) x ix,
      loose.not_in x ix,
      attends.other,
    );
  }

  -- A handler whose registers of the thread are `saved`, and which blocks the thread once the message
  -- was sent, hands it over.
  pub hand_over :
      (payload : ℕ) (saved : Cpu) (r : Outcome)
      → k.mem.t_s k.current_thread ≡ saved
      → ((k' : Kernel)
          → send mgr k.current_thread payload k ≡ some (k', send_success)
          → (sysbk : Cpu) × (r ≡ block_current (record k' { sysbk_old = sysbk })))
      → HandedOver is_head q k mgr h payload saved r
  unfolding block_current
  hand_over payload saved r state ends =
      let (k', run, resumed) =
        send-Resumed k v mgr k.current_thread payload attends.receiver h attends.sched
          attends.queued attends.waiting attends.awaits in
      let (sysbk, e) = ends k' run in
      record {
        k' = k';
        resumed = resumed;
        sysbk = sysbk;
        outcome =
            e
            ∙ ap
                (λ t.
                  scheduler
                    (record k' { mem = thread_enqueue t blockedq k'.mem; sysbk_old = sysbk }))
                resumed.current;
        registers =
            unfold thread_enqueue in
            (resumed.other_states k.current_thread (λ same. attends.other (sym same)) ∙ state);
        valid =
            thread_enqueue-Valid resumed.valid blockedq
              (record { is = v.blockedq_is; place = inl (omega arith, omega arith) })
              k.current_thread running still-IsLoose;
      }
