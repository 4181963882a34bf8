-- ===== src/Mikabooq/Msgq/Add.antt =====
-- `msgq_add` and `msgq_add_head`.
use mathlib.Core.List.{map-append}
use os_unibo.Base.{
  ℕ, ◌-◌, ◌≡◌, ◌≢◌, ◌⊎◌, inl, inr, refl, ap, ◌∙◌, pos, negsuc, Ptr, null, update, Bool, true, false,
  has, List, [], ◌∷◌, ◌++◌, ◌==◌, if◌then◌else◌, ◌∈◌, arith, erase, uncons, Bool-cases,
}
use os_unibo.Listx.{list_add, list_add_tail, list_del}
use os_unibo.Listx.Queues.{Linked}
use os_unibo.Listx.Moves.{
  move, move_front, move-Linked, move_front-Linked, has-move, has-move_front, list_next-eq,
}
use os_unibo.Mikabooq.{Mem, message_h, t_msgq, m_next}
use os_unibo.Mikabooq.Layout.{IsReceiver, IsMsgLink}
use os_unibo.Mikabooq.Msgq.{msgq_add, msgq_add_head}
use os_unibo.Mikabooq.Msgq.Mailbox.{Mailbox, message_at, mailbox, map_same}
use os_unibo.Mikabooq.Msgq.Valid.{Msgs, Msgs-update}

-- The mailbox of `t` has become `box`, a descriptor was taken from the free list, and the other
-- mailboxes and lists are as they were.
pub record Delivered (is_head : Ptr → Bool) (q : Ptr → List Ptr) (m : Mem) (t : Ptr) (box : Mailbox)
    (m' : Mem) : Type 0 where
  pub q' : Ptr → List Ptr
  pub valid : Msgs is_head q' m'
  pub new : Ptr
  pub free : q message_h ≡ new ∷ q' message_h
  pub delivered : mailbox m' (q' (t_msgq t)) ≡ box
  pub other_boxes :
      (k : Ptr) → IsReceiver k → k ≢ t → mailbox m' (q' (t_msgq k)) ≡ mailbox m (q (t_msgq k))
  pub others : (x : Ptr) → x ≢ message_h → x ≢ t_msgq t → q' x ≡ q x
  -- The fields of processes and threads are as they were.
  pub frame : m' ≡ record m { links = m'.links; m_sender = m'.m_sender; m_value = m'.m_value }
  pub parents : m'.p_parent ≡ m.p_parent
  pub pcbs : m'.t_pcb ≡ m.t_pcb
  pub statuses : m'.t_status ≡ m.t_status
  pub sys_mgrs : m'.sys_mgr ≡ m.sys_mgr

module _ {is_head : Ptr → Bool} {q : Ptr → List Ptr} {m : Mem} (v : Msgs is_head q m)
    (sender dest : Ptr) (value : ℕ) where
  -- Without a sender, a destination or a free descriptor, -1 is returned and nothing changes.
  pub msgq_add-refused :
      (sender ≡ null) ⊎ ((dest ≡ null) ⊎ (q message_h ≡ []))
      → (msgq_add sender dest value m ≡ (m, negsuc 0))
        × (msgq_add_head sender dest value m ≡ (m, negsuc 0))
  unfolding msgq_add msgq_add_head
  msgq_add-refused (inl e) = ground arith
  msgq_add-refused (inr (inl e)) = ground arith
  msgq_add-refused (inr (inr e)) = ground (arith, list_next-eq v.linked message_h v.free_is)

  module _ (ne : sender ≢ null) (id : IsReceiver dest) (f : Ptr) (rest : List Ptr)
      (free : q message_h ≡ f ∷ rest) where
    first_in : f ∈ q message_h
    first_in = ground arith

    is_link : IsMsgLink f
    is_link = (v.free_entry f first_in).0

    -- The memory once the fields are set, the entry moved as `links` says.
    filled : Mem → Mem
    filled m' = record m' {
      m_sender = update m.m_sender (f - m_next 0) sender;
      m_value = update m.m_value (f - m_next 0) value;
    }

    tail_q : Ptr → List Ptr
    tail_q = move f message_h (t_msgq dest) q

    head_q : Ptr → List Ptr
    head_q = move_front f message_h (t_msgq dest) q

    -- The entry has moved to the end, or to the front.
    to_tail : Mem
    to_tail = record m { links = list_add_tail f (t_msgq dest) (list_del f m.links) }

    to_front : Mem
    to_front = record m { links = list_add f (t_msgq dest) (list_del f m.links) }

    msgq_add-filled : msgq_add sender dest value m ≡ (filled to_tail, pos 0)
    unfolding msgq_add filled to_tail
    msgq_add-filled = ground (arith, list_next-eq v.linked message_h v.free_is, is_link, id)

    msgq_add_head-filled : msgq_add_head sender dest value m ≡ (filled to_front, pos 0)
    unfolding msgq_add_head filled to_front
    msgq_add_head-filled = ground (arith, list_next-eq v.linked message_h v.free_is, is_link, id)

    free_out : (t : Ptr) → IsReceiver t → has f (q (t_msgq t)) ≡ false
    free_out t i = elim (Bool-cases (has f (q (t_msgq t)))) [
      | inl e ↦ ground (arith, v.pending_entry t f i e, v.free_entry f first_in)
      | inr e ↦ e
    ]

    -- The pending messages keep their fields.
    kept :
        (m' : Mem) (t : Ptr)
        → IsReceiver t
        → mailbox (filled m') (q (t_msgq t)) ≡ mailbox m (q (t_msgq t))
    unfolding filled
    kept m' t i =
        map_same _ _ (q (t_msgq t))
          λ a h. ground (arith, is_link, v.pending_entry t a i h, free_out t i)

    -- Whichever end of the queue the entry joins, the invariant holds.
    filled-Msgs :
        (m' : Mem) (q' : Ptr → List Ptr)
        → Linked is_head m'.links q'
        → ((a x : Ptr)
            → is_head x ≡ true
            → has a (q' x) ≡ (if a == f then x == t_msgq dest else has a (q x)))
        → Msgs is_head q' (filled m')
    unfolding filled
    filled-Msgs m' q' linked moved =
        Msgs-update v (filled m') linked
          (λ a h. ground (arith, moved a message_h v.free_is, v.free_entry a, is_link, id))
          (λ t a i h.
            ground (arith, moved a (t_msgq t) (v.msgq_is t i), v.pending_entry t a i, is_link))

    filled_new : (m' : Mem) → message_at (filled m') f ≡ (sender, value)
    unfolding filled
    filled_new m' = ground arith

    delivered_tail :
        mailbox (filled to_tail) (q (t_msgq dest) ++ f ∷ [])
        ≡ mailbox m (q (t_msgq dest)) ++ (sender, value) ∷ []
    delivered_tail = rw (map-append, kept to_tail dest id, filled_new to_tail)

    delivered_front :
        mailbox (filled to_front) (f ∷ q (t_msgq dest))
        ≡ (sender, value) ∷ mailbox m (q (t_msgq dest))
    delivered_front = rw (kept to_front dest id, filled_new to_front)

    add-Delivered :
        Delivered is_head q m dest
          (mailbox m (q (t_msgq dest)) ++ (sender, value) ∷ [])
          (filled to_tail)
    unfolding to_tail tail_q move erase filled
    add-Delivered = record {
      q' = tail_q;
      valid =
          filled-Msgs to_tail tail_q
            (move-Linked v.linked f message_h (t_msgq dest) v.free_is (v.msgq_is dest id) first_in)
            (has-move v.linked f message_h (t_msgq dest) v.free_is (v.msgq_is dest id) first_in);
      new = f;
      free = ground (arith, is_link, id);
      delivered = ap (mailbox (filled to_tail)) (ground (arith, id)) ∙ delivered_tail;
      other_boxes =
          λ k i nk. ap (mailbox (filled to_tail)) (ground (arith, i, id)) ∙ kept to_tail k i;
      others = λ x nh nd. ground (arith, is_link, id);
      parents = refl;
      pcbs = refl;
      statuses = refl;
      sys_mgrs = refl;
      frame = refl;
    }

    add_head-Delivered :
        Delivered is_head q m dest ((sender, value) ∷ mailbox m (q (t_msgq dest))) (filled to_front)
    unfolding to_front head_q move_front erase filled
    add_head-Delivered = record {
      q' = head_q;
      valid =
          filled-Msgs to_front head_q
            (move_front-Linked v.linked f message_h (t_msgq dest) v.free_is (v.msgq_is dest id)
              first_in)
            (has-move_front v.linked f message_h (t_msgq dest) v.free_is (v.msgq_is dest id)
              first_in);
      new = f;
      free = ground (arith, is_link, id);
      delivered =
          ap (mailbox (filled to_front)) {y = f ∷ q (t_msgq dest)} (ground (arith, id))
          ∙ delivered_front;
      other_boxes =
          λ k i nk. ap (mailbox (filled to_front)) (ground (arith, i, id)) ∙ kept to_front k i;
      others = λ x nh nd. ground (arith, is_link, id);
      parents = refl;
      pcbs = refl;
      statuses = refl;
      sys_mgrs = refl;
      frame = refl;
    }

  -- With a sender, a destination and a free descriptor, `msgq_add` puts the message behind those of
  -- the mailbox and `msgq_add_head` before them; both return 0, and the other mailboxes are as they
  -- were.
  pub msgq_add-Delivered :
      sender ≢ null
      → IsReceiver dest
      → q message_h ≢ []
      → let box = mailbox m (q (t_msgq dest)) in
        let (m', code) = msgq_add sender dest value m in
        let (m'', code') = msgq_add_head sender dest value m in
        (code ≡ pos 0)
        × Delivered is_head q m dest (box ++ (sender, value) ∷ []) m'
        × (code' ≡ pos 0)
        × Delivered is_head q m dest ((sender, value) ∷ box) m''
  msgq_add-Delivered ne id some_free =
      let (f, rest, e) = uncons (q message_h) some_free in
      rw (msgq_add-filled ne id f rest e, msgq_add_head-filled ne id f rest e)
        (refl, add-Delivered ne id f rest e, refl, add_head-Delivered ne id f rest e)
