-- ===== src/Mikabooq/Sched.antt =====
-- The scheduling queues are FIFO queues of threads, and moving threads between them disturbs
-- nothing else.
use os_unibo.Base.{
  ◌-◌, ◌≡◌, refl, subst, Ptr, null, update, Bool, false, has, List, [], ◌∷◌, ◌++◌, ◌==◌,
  if◌then◌else◌, arith, ◌∈◌, erase, has-append, has-erase,
}
use os_unibo.Listx.{Links, list_add_tail, list_del}
use os_unibo.Listx.Queues.{IsLoose, list_add_tail-Linked, list_del-Linked, list_del-IsLoose}
use os_unibo.Listx.Moves.{move, move-Linked, has-move, list_next-eq}
use os_unibo.Mikabooq.{Mem, t_sched}
use os_unibo.Mikabooq.Layout.{IsReceiver, IsSchedLink}
use os_unibo.Mikabooq.Thread.{thread_enqueue, thread_qhead, thread_dequeue, thread_outqueue}
use os_unibo.Mikabooq.Valid.{
  SameTables-fields, IsSchedQueue, other-ne-sched, Valid, SameTables, Valid-frame,
}

SameTables-links : (m : Mem) (l : Links) → SameTables m (record m { links = l })
SameTables-links m l = SameTables-fields refl refl refl refl

module _ {is_head : Ptr → Bool} {q : Ptr → List Ptr} {m : Mem} (v : Valid is_head q m) (k : Ptr)
    (sched : IsSchedQueue is_head m k) where
  -- `thread_enqueue` puts a thread that is in no scheduling queue at the end of one.
  pub thread_enqueue-Valid :
      (t : Ptr)
      → IsReceiver t
      → IsLoose is_head q (t_sched t)
      → Valid is_head (update q k (q k ++ t_sched t ∷ [])) (thread_enqueue t k m)
  unfolding thread_enqueue
  thread_enqueue-Valid t it loose =
      Valid-frame v (SameTables-links m _)
        (list_add_tail-Linked v.msgs.linked (t_sched t) k sched.is loose)
        (λ x o. ground (arith, other-ne-sched x sched o))
        (λ j a s h. ground (arith, has-append a (q k) (t_sched t ∷ []), v.sched_entry j a s, it))

  -- `thread_qhead` is the first thread of the queue, and NULL if there is none.
  pub thread_qhead-nil : q k ≡ [] → (thread_qhead k m ≡ null) × (thread_dequeue k m ≡ (m, null))
  unfolding thread_qhead thread_dequeue
  thread_qhead-nil e = ground (arith, list_next-eq v.msgs.linked k sched.is)

  module _ (e : Ptr) (is_in : e ∈ q k) where
    erased : (a : Ptr) → has a (erase e (q k)) ≡ (if a == e then false else has a (q k))
    erased a = has-erase a e (q k) (v.msgs.linked.ring k sched.is).distinct

    -- An entry that leaves a scheduling queue is loose.
    pub del-Valid :
        Valid is_head (update q k (erase e (q k))) (record m { links = list_del e m.links })
        × IsLoose is_head (update q k (erase e (q k))) e
    del-Valid = (
      Valid-frame v (SameTables-links m _) (list_del-Linked v.msgs.linked e k sched.is is_in)
          (λ x o. ground (arith, other-ne-sched x sched o))
          (λ j a s h. ground (arith, erased a, v.sched_entry j a s)),
      list_del-IsLoose v.msgs.linked e k sched.is is_in,
    )

    -- An entry moves to the end of the scheduling queue `j`.
    pub requeue-Valid :
        (j : Ptr)
        → IsSchedQueue is_head m j
        → Valid is_head (move e k j q) (record m { links = list_add_tail e j (list_del e m.links) })
    requeue-Valid j to =
        Valid-frame v (SameTables-links m _) (move-Linked v.msgs.linked e k j sched.is to.is is_in)
          (λ x o. unfold move in ground (arith, other-ne-sched x sched o, other-ne-sched x to o))
          (λ i a s h. ground (
            arith,
            has-move v.msgs.linked e k j sched.is to.is is_in a i s.is,
            v.sched_entry i a s,
            v.sched_entry k e sched is_in,
          ))

  -- `thread_outqueue` takes a thread out, wherever it stands.
  pub thread_outqueue-Valid :
      (t : Ptr)
      → t_sched t ∈ q k
      → Valid is_head (update q k (erase (t_sched t) (q k))) (thread_outqueue t m)
        × IsLoose is_head (update q k (erase (t_sched t) (q k))) (t_sched t)
  unfolding thread_outqueue
  thread_outqueue-Valid t i = del-Valid (t_sched t) i

  module _ (a : Ptr) (rest : List Ptr) (e : q k ≡ a ∷ rest) where
    is_link : IsSchedLink a
    is_link = v.sched_entry k a sched (ground arith)

    first_gone : erase a (q k) ≡ rest
    unfolding erase
    first_gone = ground arith

    pub thread_dequeue-run :
        (thread_dequeue k m ≡ (record m { links = list_del a m.links }, a - t_sched 0))
        × (thread_qhead k m ≡ a - t_sched 0)
    unfolding thread_dequeue thread_qhead
    thread_dequeue-run = ground (arith, list_next-eq v.msgs.linked k sched.is, is_link)

    -- `thread_dequeue` takes the first thread of the queue out, the one that `thread_qhead` shows.
    pub thread_dequeue-cons :
        let (m', t) = thread_dequeue k m in
        (thread_qhead k m ≡ t)
        × (t_sched t ≡ a)
        × IsReceiver t
        × Valid is_head (update q k rest) m'
        × IsLoose is_head (update q k rest) a
    thread_dequeue-cons =
        let after =
          subst
            (λ xs.
              Valid is_head (update q k xs) (record m { links = list_del a m.links })
              × IsLoose is_head (update q k xs) a)
            first_gone (del-Valid a (ground arith)) in
        rw (thread_dequeue-run.0, thread_dequeue-run.1)
          (refl, omega (arith, is_link), is_link.thread, after.0, after.1)
