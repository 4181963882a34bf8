-- ===== src/Kernel/Message/Laws.antt =====
-- What `send` does in each state of the receiver.
use os_unibo.Base.{
  ◌≡◌, ◌≢◌, ◌⊎◌, inl, inr, refl, ◌∙◌, Ptr, null, update, Bool, true, List, [], ◌∷◌, ◌++◌, ◌==◌, ℕ,
  some, arith, Bool-cases, ◌∈◌, ◌||◌,
}
use os_unibo.Mikabooq.{
  Mem, readyq, message_h, t_sched, t_msgq, t_status_none, t_status_ready, t_status_w4msg,
}
use os_unibo.Mikabooq.Layout.{IsReceiver}
use os_unibo.Mikabooq.Msgq.{msgq_add}
use os_unibo.Mikabooq.Msgq.Mailbox.{mailbox}
use os_unibo.Mikabooq.Msgq.Add.{Delivered, msgq_add-refused, msgq_add-Delivered}
use os_unibo.Mikabooq.Valid.{Valid, IsSchedQueue, Valid-fields, Valid-Msgs}
use os_unibo.Mikabooq.Sched.{requeue-Valid}
use os_unibo.Mikabooq.Thread.{thread_enqueue, thread_outqueue}
use os_unibo.Listx.Moves.{move}
use os_unibo.Kernel.{Kernel}
use os_unibo.Kernel.Message.{
  deliver_code, send, deliver_msg, deliver_directly, resume_thread, send_success, send_failure,
}

-- The receiver `dest`, which waited in the queue `h`, is the last of the ready queue; the sender
-- and the message are where its receive returns them.
pub record Resumed (is_head : Ptr → Bool) (q : Ptr → List Ptr) (k : Kernel) (dest sender h : Ptr)
    (msg : ℕ) (k' : Kernel) : Type 0 where
  pub valid : Valid is_head (move (t_sched dest) h readyq q) k'.mem
  pub returned : (k'.mem.t_s dest).a1 ≡ sender
  pub stored : (k.mem.t_s dest).a3 ≢ null → k'.words (k.mem.t_s dest).a3 ≡ msg
  pub other_words : (x : Ptr) → x ≢ (k.mem.t_s dest).a3 → k'.words x ≡ k.words x
  pub ready : k'.mem.t_status dest ≡ t_status_ready
  pub awaits_none : k'.mem.t_wait4sender dest ≡ null
  pub other_states : (x : Ptr) → x ≢ dest → k'.mem.t_s x ≡ k.mem.t_s x
  pub other_statuses : (x : Ptr) → x ≢ dest → k'.mem.t_status x ≡ k.mem.t_status x
  -- The rest is as it was.
  pub pcbs : k'.mem.t_pcb ≡ k.mem.t_pcb
  pub errnos : k'.mem.errno ≡ k.mem.errno
  pub parents : k'.mem.p_parent ≡ k.mem.p_parent
  pub sys_mgrs : k'.mem.sys_mgr ≡ k.mem.sys_mgr
  pub count : k'.thread_count ≡ k.thread_count
  pub current : k'.current_thread ≡ k.current_thread
  pub idle : k'.is_idle ≡ k.is_idle
  pub saved : k'.int_old ≡ k.int_old
  pub soft_blocked : k'.soft_blocked_thread ≡ k.soft_blocked_thread

module _ {is_head : Ptr → Bool} {q : Ptr → List Ptr} (k : Kernel) (v : Valid is_head q k.mem)
    (dest sender : Ptr) (msg : ℕ) (id : IsReceiver dest) where
  -- The fields that a resumed thread gets.
  fields : Mem
  fields = record (k.mem) {
    t_s = update k.mem.t_s dest (record (k.mem.t_s dest) { a1 = sender });
    t_status = update k.mem.t_status dest t_status_ready;
    t_wait4sender = update k.mem.t_wait4sender dest null;
  }

  module _ (h : Ptr) (sched : IsSchedQueue is_head k.mem h) (waits : t_sched dest ∈ q h)
      (waiting : k.mem.t_status dest ≡ t_status_w4msg) where
    fields-Valid : Valid is_head q fields
    unfolding fields
    fields-Valid =
        Valid-fields _ v
          (record {
            parents = refl;
            pcbs = refl;
            senders = refl;
            unused = λ t i e. ground (arith, v.threads.unused t i e);
            used = λ t i e. ground arith;
          })
          refl

    fields-moved :
        Valid is_head
          (move (t_sched dest) h readyq q)
          (thread_enqueue dest readyq (thread_outqueue dest fields))
    unfolding fields thread_enqueue thread_outqueue
    fields-moved =
        requeue-Valid fields-Valid h (record { is = sched.is; place = sched.place }) (t_sched dest)
          waits readyq (record { is = v.readyq_is; place = inl (omega arith, omega arith) })

    -- A resumed thread has moved from the queue in which it waited to the end of the ready queue.
    pub resume_thread-Resumed :
        Resumed is_head q k dest sender h msg (resume_thread dest sender msg k)
    unfolding resume_thread deliver_directly fields thread_enqueue thread_outqueue
    resume_thread-Resumed = elim (Bool-cases ((k.mem.t_s dest).a3 == null)) [
      | inl e ↦ rw e (record {
        valid = fields-moved;
        returned = ground arith;
        stored = λ ne. ground arith;
        other_words = λ x ne. refl;
        ready = ground arith;
        awaits_none = ground arith;
        other_states = λ x ne. ground arith;
        other_statuses = λ x ne. ground arith;
        pcbs = refl;
        current = refl;
        errnos = refl;
        parents = refl;
        sys_mgrs = refl;
        count = refl;
        idle = refl;
        saved = refl;
        soft_blocked = refl;
      })
      | inr e ↦ rw e (record {
        valid = fields-moved;
        returned = ground arith;
        stored = λ ne. ground arith;
        other_words = λ x ne. ground arith;
        ready = ground arith;
        awaits_none = ground arith;
        other_states = λ x ne. ground arith;
        other_statuses = λ x ne. ground arith;
        pcbs = refl;
        current = refl;
        errnos = refl;
        parents = refl;
        sys_mgrs = refl;
        count = refl;
        idle = refl;
        saved = refl;
        soft_blocked = refl;
      })
    ]

    -- A message to a thread that waits for the sender, or for anybody, does not pass through the
    -- message queue: the thread is resumed with it, and `send` succeeds.
    pub send-Resumed :
        (k.mem.t_wait4sender dest ≡ sender) ⊎ (k.mem.t_wait4sender dest ≡ null)
        → (k' : Kernel) × (send dest sender msg k ≡ some (k', send_success))
          × Resumed is_head q k dest sender h msg k'
    unfolding send
    send-Resumed awaited =
        let hit : (k.mem.t_wait4sender dest == sender || k.mem.t_wait4sender dest == null) ≡ true =
          ground arith in
        (resume_thread dest sender msg k, rw (waiting, hit) refl, resume_thread-Resumed)

  -- The receiver is ready, or waits for somebody else.
  abbrev pub Queues : Type 0
  Queues =
      (k.mem.t_status dest ≡ t_status_ready)
      ⊎ ((k.mem.t_status dest ≡ t_status_w4msg)
          × (k.mem.t_wait4sender dest ≢ sender)
          × (k.mem.t_wait4sender dest ≢ null))

  send-deliver_msg : Queues → send dest sender msg k ≡ some (deliver_msg dest sender msg k)
  unfolding send
  send-deliver_msg c = ground arith

  -- With a sender and a free descriptor, a message to a thread that is ready, or that waits for
  -- another sender, becomes the last of the thread's mailbox, and `send` succeeds. The links of the
  -- two lists, and the senders and values of messages, are all that changes; the other mailboxes
  -- are as they were.
  pub send-Delivered :
      Queues
      → sender ≢ null
      → q message_h ≢ []
      → (m' : Mem) × (send dest sender msg k ≡ some (record k { mem = m' }, send_success))
        × (sent : Delivered is_head q k.mem dest
            (mailbox k.mem (q (t_msgq dest)) ++ (sender, msg) ∷ [])
            m')
        × Valid is_head sent.q' m'
  send-Delivered c ne some_free =
      let (code, sent, _, _) = msgq_add-Delivered v.msgs sender dest msg ne id some_free in
      (
        (msgq_add sender dest msg k.mem).0,
        send-deliver_msg c ∙ unfold deliver_msg deliver_code in rw code refl,
        sent,
        Valid-Msgs _ dest v id (λ t. ground (arith, v.threads.unused dest t)) sent.valid sent.others
            sent.parents sent.pcbs sent.statuses,
      )

  -- A message to an unused descriptor, and one that cannot resume its receiver while no descriptor
  -- is free or that has no sender, fails: -1 is returned as an unsigned number, and nothing changes.
  pub send-refused :
      (k.mem.t_status dest ≡ t_status_none) ⊎ (Queues × ((sender ≡ null) ⊎ (q message_h ≡ [])))
      → send dest sender msg k ≡ some (k, send_failure)
  unfolding send
  send-refused (inl e) = ground arith
  send-refused (inr (c, inl e)) =
      send-deliver_msg c
      ∙ (unfold deliver_msg deliver_code in
          rw ((msgq_add-refused v.msgs sender dest msg (inl e)).0) refl)
  send-refused (inr (c, inr e)) =
      send-deliver_msg c
      ∙ (unfold deliver_msg deliver_code in
          rw ((msgq_add-refused v.msgs sender dest msg (inr (inr e))).0) refl)
