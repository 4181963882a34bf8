-- ===== src/Ssi/Tree/Clean.antt =====
-- `clean_sys_msg`: the request of a thread that ends is taken out of the queue in which it waits.
use os_unibo.Base.{
  ℕ, ◌≡◌, ◌≢◌, ◌⊎◌, inl, inr, refl, Ptr, null, Bool, false, List, Option, none, some, ◌==◌, ◌&&◌,
  not, arith, Bool-cases,
}
use mathlib.Core.Option
use os_unibo.Mikabooq.{Mem, message_h, t_msgq, t_status_w4msg}
use os_unibo.Mikabooq.Layout.{IsThread, IsReceiver, ssi_thread}
use os_unibo.Mikabooq.Msgq.{Got, msgq_get, get_from}
use os_unibo.Mikabooq.Msgq.Mailbox.{Mailbox}
use os_unibo.Mikabooq.Msgq.Free.{Taken}
use os_unibo.Mikabooq.Msgq.Get.{Gets, msgq_get-Gets}
use os_unibo.Mikabooq.Valid.{Valid, Valid-Msgs}
use os_unibo.Kernel.{Kernel}
use os_unibo.Ssi.Create.{get_processid_s}
use os_unibo.Ssi.Terminate.{discard_from, clean_sys_msg}
use os_unibo.Ssi.Tree.{clean_waiting}
use os_unibo.Ssi.Settled.{Settled, Settled-frame}

-- At most a message has gone from a mailbox to the free list.
pub record Cleaned (is_head : Ptr → Bool) (q : Ptr → List Ptr) (m m' : Mem) : Type 0 where
  pub dest : Ptr
  pub receiver : IsReceiver dest
  pub q' : Ptr → List Ptr
  pub valid : Valid is_head q' m'
  pub others : (x : Ptr) → x ≢ message_h → x ≢ t_msgq dest → q' x ≡ q x
  pub pcbs : m'.t_pcb ≡ m.t_pcb
  pub statuses : m'.t_status ≡ m.t_status
  pub parents : m'.p_parent ≡ m.p_parent
  pub sys_mgrs : m'.sys_mgr ≡ m.sys_mgr

module _ {is_head : Ptr → Bool} {q : Ptr → List Ptr} (m : Mem) (v : Valid is_head q m) where
  abbrev unchanged : Cleaned is_head q m m
  unchanged = record {
    dest = ssi_thread;
    receiver = omega arith;
    q' = q;
    valid = v;
    others = λ x _ _. refl;
    pcbs = refl;
    statuses = refl;
    parents = refl;
    sys_mgrs = refl;
  }

  -- Only a thread in use has messages.
  Taken-Cleaned :
      (dest : Ptr) (box : Mailbox) (m' : Mem)
      → IsReceiver dest
      → Taken is_head q m dest box m'
      → Cleaned is_head q m m'
  Taken-Cleaned dest box m' id taken = record {
    dest = dest;
    receiver = id;
    q' = taken.q';
    valid =
        Valid-Msgs m' dest v id (λ i e. ground (arith, v.threads.no_msgs dest i e, taken.shorter))
          taken.valid taken.others taken.parents taken.pcbs taken.statuses;
    others = taken.others;
    pcbs = taken.pcbs;
    statuses = taken.statuses;
    parents = taken.parents;
    sys_mgrs = taken.sys_mgrs;
  }

  Gets-Cleaned :
      (sender dest : Ptr) (r : Option ((Ptr × ℕ) × Mailbox)) (g : Option (Mem × Got))
      → IsReceiver dest
      → Gets is_head q m dest (some sender) false r g
      → (m' : Mem) × (Option.map (λ got. got.0) g ≡ some m') × Cleaned is_head q m m'
  Gets-Cleaned sender dest none g id e = (m, rw e refl, unchanged)
  Gets-Cleaned sender dest (some ((from, value), box)) g id (m', e, taken) =
      (m', rw e refl, Taken-Cleaned dest box m' id taken)

  discard_from-Cleaned :
      (sender dest : Ptr)
      → sender ≢ null
      → (dest ≡ null) ⊎ IsReceiver dest
      → (m' : Mem) × (discard_from sender dest m ≡ some m') × Cleaned is_head q m m'
  unfolding discard_from msgq_get get_from
  discard_from-Cleaned sender dest ne (inl e) = (m, ground arith, unchanged)
  discard_from-Cleaned sender dest ne (inr id) =
      Gets-Cleaned sender dest _ _ id (msgq_get-Gets v.msgs dest id false (some sender))

  module _ (settled : Settled is_head q m) where
    Cleaned-Settled : (m' : Mem) (c : Cleaned is_head q m m') → Settled is_head c.q' m'
    Cleaned-Settled m' c =
        Settled-frame v settled c.pcbs c.statuses
          (λ x sched.
            c.others x (λ e. ground (arith, sched.place))
              (λ e. ground (arith, sched.place, c.receiver)))
          (λ h a ih aligned i. ground (
            arith,
            c.others h,
            c.valid.msgs.free_entry a,
            c.valid.msgs.pending_entry c.dest a c.receiver,
          ))
          (λ p ip. rw c.sys_mgrs (settled.mgrs p ip))

    clean_sys_msg-Cleaned :
        (t : Ptr)
        → IsThread t
        → m.t_pcb t ≢ null
        → (m' : Mem) × (clean_sys_msg t m ≡ some m') × Cleaned is_head q m m'
    unfolding clean_sys_msg get_processid_s
    clean_sys_msg-Cleaned t it used =
        let mgr = settled.mgrs (m.t_pcb t) (v.threads.owner_live t it used).0 in
        let from_ssi = discard_from-Cleaned t ssi_thread (omega (arith, it)) (inr (omega arith)) in
        let from_mgr = discard_from-Cleaned t (m.sys_mgr (m.t_pcb t)) (omega (arith, it)) mgr in
        elim (Bool-cases (m.t_wait4sender t == ssi_thread)) [
          | inl e ↦ rw e from_ssi
          | inr e ↦ elim (Bool-cases (m.t_wait4sender t == m.sys_mgr (m.t_pcb t))) [
            | inl e' ↦ rw (e, e') from_mgr
            | inr e' ↦ elim (Bool-cases (m.t_wait4sender t == m.pgm_mgr (m.t_pcb t))) [
              | inl e'' ↦ rw (e, e', e'') from_mgr
              | inr e'' ↦ rw (e, e', e'') (m, refl, unchanged)
            ]
          ]
        ]

-- Before a thread ends, its request is taken back or not; the tables stay sound either way.
pub clean_waiting-Cleaned :
    {is_head : Ptr → Bool} {q : Ptr → List Ptr} (k : Kernel) (v : Valid is_head q k.mem)
    → Settled is_head q k.mem
    → (t applicant : Ptr) → IsThread t
    → k.mem.t_pcb t ≢ null
    → (m' : Mem) × (clean_waiting t applicant k ≡ some (record k { mem = m' }))
      × (c : Cleaned is_head q k.mem m') × Settled is_head c.q' m'
unfolding clean_waiting
clean_waiting-Cleaned k v settled t applicant it used =
    elim (Bool-cases (not (t == applicant) && k.mem.t_status t == t_status_w4msg)) [
      | inl e ↦
          let (m', run, c) = clean_sys_msg-Cleaned k.mem v settled t it used in
          (m', rw (e, run) refl, c, Cleaned-Settled k.mem v settled m' c)
      | inr e ↦ (k.mem, rw e refl, unchanged k.mem v, settled)
    ]
