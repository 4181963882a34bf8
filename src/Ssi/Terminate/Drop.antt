-- ===== src/Ssi/Terminate/Drop.antt =====
-- The messages of a thread that ends.
use os_unibo.Base.{
  ◌-◌, ◌<◌, ◌≡◌, ◌≢◌, refl, ◌∙◌, Ptr, null, ℕ, zero, suc, Bool, List, [], ◌∷◌, some, arith, length,
  nil_or_cons, inl, inr, ◌+◌,
}
use os_unibo.Listx.Moves.{list_next-eq, list_empty-eq}
use os_unibo.Mikabooq.{Mem, message_h, max_msg, t_msgq, m_next}
use os_unibo.Mikabooq.Layout.{IsThread, IsReceiver}
use os_unibo.Mikabooq.Msgq.{msg_free, msg_qhead}
use os_unibo.Mikabooq.Msgq.Free.{msg_free-Taken}
use os_unibo.Mikabooq.Msgq.Valid.{length-le-max_msg}
use os_unibo.Mikabooq.Valid.{Valid, Valid-Msgs}
use os_unibo.Ssi.Terminate.{drop_msgs}

-- The mailbox of `t` is empty, and but for it and the free messages the lists are as they were.
pub record Dropped (is_head : Ptr → Bool) (q : Ptr → List Ptr) (m : Mem) (t : Ptr) (m' : Mem)
    : Type 0 where
  pub q' : Ptr → List Ptr
  pub valid : Valid is_head q' m'
  pub empty : q' (t_msgq t) ≡ []
  pub others : (x : Ptr) → x ≢ message_h → x ≢ t_msgq t → q' x ≡ q x
  pub pcbs : m'.t_pcb ≡ m.t_pcb
  pub statuses : m'.t_status ≡ m.t_status
  pub parents : m'.p_parent ≡ m.p_parent
  pub sys_mgrs : m'.sys_mgr ≡ m.sys_mgr

module _ {is_head : Ptr → Bool} (t : Ptr) (it : IsReceiver t) where
  drop_first :
      (fuel : ℕ) {q : Ptr → List Ptr} {m : Mem} (v : Valid is_head q m) (x : Ptr) (xs : List Ptr)
      → q (t_msgq t) ≡ x ∷ xs
      → drop_msgs (suc fuel) t m ≡ drop_msgs fuel t (msg_free (x - m_next 0) m).0
  unfolding drop_msgs msg_qhead
  drop_first fuel v x xs e = ground (
    arith,
    list_empty-eq v.msgs.linked (t_msgq t) (v.msgs.msgq_is t it),
    list_next-eq v.msgs.linked (t_msgq t) (v.msgs.msgq_is t it),
    (v.msgs.pending_entry t x it (ground arith)).0,
  )

  drop_none :
      (fuel : ℕ) {q : Ptr → List Ptr} {m : Mem} (v : Valid is_head q m)
      → q (t_msgq t) ≡ []
      → drop_msgs (suc fuel) t m ≡ some m
  unfolding drop_msgs
  drop_none fuel v e = ground (arith, list_empty-eq v.msgs.linked (t_msgq t) (v.msgs.msgq_is t it))

  drop_msgs-Dropped :
      (fuel : ℕ) {q : Ptr → List Ptr} {m : Mem}
      → Valid is_head q m
      → (IsThread t → m.t_pcb t ≢ null)
      → length (q (t_msgq t)) < fuel
      → (m' : Mem) × (drop_msgs fuel t m ≡ some m') × Dropped is_head q m t m'
  drop_msgs-Dropped zero v in_use l = absurd (omega arith)
  drop_msgs-Dropped (suc fuel) {q} {m} v in_use l = elim (nil_or_cons (q (t_msgq t))) [
    | inl e ↦ (
      m,
      drop_none fuel v e,
      record {
        q' = q;
        valid = v;
        empty = e;
        others = λ x _ _. refl;
        pcbs = refl;
        statuses = refl;
        parents = refl;
        sys_mgrs = refl;
      },
    )
    | inr (x, xs, e) ↦
        let step = msg_free-Taken v.msgs t it x (ground arith) in
        let next =
          Valid-Msgs _ t v it in_use step.valid step.others step.parents step.pcbs step.statuses in
        let (m', run, rest) =
          drop_msgs-Dropped fuel next (rw step.pcbs in_use) (omega (arith, step.shorter, l)) in
        (
          m',
          drop_first fuel v x xs e ∙ run,
          record {
            q' = rest.q';
            valid = rest.valid;
            empty = rest.empty;
            others = λ y nm nt. rest.others y nm nt ∙ step.others y nm nt;
            pcbs = rest.pcbs ∙ step.pcbs;
            statuses = rest.statuses ∙ step.statuses;
            parents = rest.parents ∙ step.parents;
            sys_mgrs = rest.sys_mgrs ∙ step.sys_mgrs;
          },
        )
  ]

  -- The rounds that the model allows are enough.
  pub drop_all :
      {q : Ptr → List Ptr} {m : Mem} (v : Valid is_head q m)
      → (IsThread t → m.t_pcb t ≢ null)
      → (m' : Mem) × (drop_msgs (max_msg + 1) t m ≡ some m') × Dropped is_head q m t m'
  drop_all v in_use =
      drop_msgs-Dropped (max_msg + 1) v in_use (omega (arith, length-le-max_msg v.msgs t it))
