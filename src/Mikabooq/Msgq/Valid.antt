-- ===== src/Mikabooq/Msgq/Valid.antt =====
-- The message queues: every message descriptor that is in a list is free or pending.
use os_unibo.Base.{
  ◌-◌, ◌≤◌, ◌≡◌, ◌≢◌, Ptr, null, Bool, true, List, ◌∈◌, arith, length, length-le-room,
}
use os_unibo.Listx.Queues.{Linked}
use os_unibo.Mikabooq.{Mem, max_msg, message, message_h, t_msgq, m_next}
use os_unibo.Mikabooq.Layout.{IsReceiver, IsMsgLink}

pub record Msgs (is_head : Ptr → Bool) (q : Ptr → List Ptr) (m : Mem) : Type 0 where
  pub linked : Linked is_head m.links q
  pub free_is : is_head message_h ≡ true
  pub msgq_is : (t : Ptr) → IsReceiver t → is_head (t_msgq t) ≡ true
  pub free_entry : (a : Ptr) → a ∈ q message_h → IsMsgLink a × (m.m_sender (a - m_next 0) ≡ null)
  pub pending_entry :
      (t a : Ptr)
      → IsReceiver t
      → a ∈ q (t_msgq t)
      → IsMsgLink a × (m.m_sender (a - m_next 0) ≢ null)

module _ {is_head : Ptr → Bool} {q : Ptr → List Ptr} {m : Mem} (v : Msgs is_head q m) where
  -- No queue is longer than there are messages.
  pub length-le-max_msg : (t : Ptr) → IsReceiver t → length (q (t_msgq t)) ≤ max_msg
  length-le-max_msg t i =
      length-le-room (m_next (message 0)) max_msg (q (t_msgq t))
        (v.linked.ring (t_msgq t) (v.msgq_is t i)).distinct
        (λ a h. omega (arith, v.pending_entry t a i h))

  -- A change of the lists that treats each message entry as pending or free, with its sender.
  pub Msgs-update :
      {q' : Ptr → List Ptr} (m' : Mem)
      → Linked is_head m'.links q'
      → ((a : Ptr) → a ∈ q' message_h → IsMsgLink a × (m'.m_sender (a - m_next 0) ≡ null))
      → ((t a : Ptr)
          → IsReceiver t
          → a ∈ q' (t_msgq t)
          → IsMsgLink a × (m'.m_sender (a - m_next 0) ≢ null))
      → Msgs is_head q' m'
  Msgs-update m' linked free pending = record {
    linked = linked;
    free_is = v.free_is;
    msgq_is = v.msgq_is;
    free_entry = free;
    pending_entry = pending;
  }
