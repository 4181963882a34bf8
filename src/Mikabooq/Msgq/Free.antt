-- ===== src/Mikabooq/Msgq/Free.antt =====
-- `msg_free`: a pending message leaves its queue.
use os_unibo.Base.{
  ◌-◌, ◌≡◌, refl, ◌≢◌, ap, ◌∙◌, Ptr, Bool, true, has, List, [], ◌∷◌, ◌++◌, ◌==◌, if◌then◌else◌, ◌∈◌,
  ◌∉◌, arith, erase, has-erase, length, length-erase, ◌<◌, Bool-cases, inl, inr,
}
use os_unibo.Listx.Queues.{Linked}
use os_unibo.Listx.Moves.{move, move-Linked, has-move}
use os_unibo.Mikabooq.{Mem, message_h, t_msgq, m_next}
use os_unibo.Mikabooq.Layout.{IsReceiver, IsMsgLink}
use os_unibo.Mikabooq.Msgq.{msg_free}
use os_unibo.Mikabooq.Msgq.Mailbox.{Mailbox, mailbox, map_same}
use os_unibo.Mikabooq.Msgq.Valid.{Msgs, Msgs-update}

-- The mailbox of `t` has become `box`, a descriptor has gone back to the free list, and the other
-- mailboxes and lists are as they were.
pub record Taken (is_head : Ptr → Bool) (q : Ptr → List Ptr) (m : Mem) (t : Ptr) (box : Mailbox)
    (m' : Mem) : Type 0 where
  pub q' : Ptr → List Ptr
  pub valid : Msgs is_head q' m'
  pub old : Ptr
  pub free : q' message_h ≡ q message_h ++ old ∷ []
  pub shorter : length (q' (t_msgq t)) < length (q (t_msgq t))
  pub taken : mailbox m' (q' (t_msgq t)) ≡ box
  pub other_boxes :
      (k : Ptr) → IsReceiver k → k ≢ t → mailbox m' (q' (t_msgq k)) ≡ mailbox m (q (t_msgq k))
  pub others : (x : Ptr) → x ≢ message_h → x ≢ t_msgq t → q' x ≡ q x
  -- The fields of processes and threads are as they were.
  pub parents : m'.p_parent ≡ m.p_parent
  pub pcbs : m'.t_pcb ≡ m.t_pcb
  pub statuses : m'.t_status ≡ m.t_status
  pub sys_mgrs : m'.sys_mgr ≡ m.sys_mgr

module _ {is_head : Ptr → Bool} {q : Ptr → List Ptr} {m : Mem} (v : Msgs is_head q m) (t : Ptr)
    (it : IsReceiver t) (e : Ptr) (pending : e ∈ q (t_msgq t)) where
  is_link : IsMsgLink e
  is_link = (v.pending_entry t e it pending).0

  after : Mem
  unfolding msg_free
  after = (msg_free (e - m_next 0) m).0

  after_q : Ptr → List Ptr
  after_q = move e (t_msgq t) message_h q

  moved :
      (a x : Ptr)
      → is_head x ≡ true
      → has a (after_q x) ≡ (if a == e then x == message_h else has a (q x))
  unfolding after_q
  moved = has-move v.linked e (t_msgq t) message_h (v.msgq_is t it) v.free_is pending

  kept :
      (xs : List Ptr) (k : Ptr)
      → IsReceiver k
      → e ∉ xs
      → ((a : Ptr) → a ∈ xs → a ∈ q (t_msgq k))
      → mailbox after xs ≡ mailbox m xs
  unfolding after
  kept xs k i out sub = map_same _ _ xs λ a h. ground (arith, is_link, sub a, v.pending_entry k a i)

  after-Linked : Linked is_head after.links after_q
  unfolding after after_q
  after-Linked =
      let back : m_next (e - m_next 0) ≡ e = omega (arith, is_link) in
      rw back (move-Linked v.linked e (t_msgq t) message_h (v.msgq_is t it) v.free_is pending)

  after-Msgs : Msgs is_head after_q after
  unfolding after
  after-Msgs =
      Msgs-update v after after-Linked
        (λ a h.
          ground (arith, moved a message_h v.free_is, v.free_entry a, v.pending_entry t e it, it))
        (λ k a i h.
          ground (arith, moved a (t_msgq k) (v.msgq_is k i), v.pending_entry k a i, i, is_link))

  out_of_erased : e ∉ erase e (q (t_msgq t))
  out_of_erased =
      ground
        (arith, has-erase e e (q (t_msgq t)) (v.linked.ring (t_msgq t) (v.msgq_is t it)).distinct)

  erased_in : (a : Ptr) → a ∈ erase e (q (t_msgq t)) → a ∈ q (t_msgq t)
  erased_in a h =
      ground
        (arith, has-erase a e (q (t_msgq t)) (v.linked.ring (t_msgq t) (v.msgq_is t it)).distinct)

  out_of_other : (k : Ptr) → IsReceiver k → k ≢ t → e ∉ q (t_msgq k)
  out_of_other k i nk = elim (Bool-cases (has e (q (t_msgq k)))) [
    | inl h ↦
        ground (
          arith,
          v.linked.unique (t_msgq k) (t_msgq t) e (v.msgq_is k i) (v.msgq_is t it) h pending,
        )
    | inr h ↦ h
  ]

  -- A pending message leaves its queue for the end of the free list.
  pub msg_free-Taken :
      Taken is_head q m t (mailbox m (erase e (q (t_msgq t)))) (msg_free (e - m_next 0) m).0
  unfolding after_q move
  msg_free-Taken =
      unfold after in
      record {
        q' = after_q;
        valid = after-Msgs;
        old = e;
        free = ground (arith, it);
        shorter = ground (arith, it, length-erase e (q (t_msgq t)) pending);
        taken =
            ap (mailbox after) {y = erase e (q (t_msgq t))} (ground (arith, it))
            ∙ kept (erase e (q (t_msgq t))) t it out_of_erased erased_in;
        other_boxes = λ k i nk.
            ap (mailbox after) {y = q (t_msgq k)} (ground (arith, i, it))
            ∙ kept (q (t_msgq k)) k i (out_of_other k i nk) (λ a h. h);
        others = λ x nh nt. ground arith;
        parents = refl;
        pcbs = refl;
        statuses = refl;
        sys_mgrs = refl;
      }
