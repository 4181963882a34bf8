-- ===== src/Ssi/Sound/Send.antt =====
-- `send` keeps the invariant, whatever state the receiver is in.
use os_unibo.Base.{
  ◌⊎◌, ◌-◌, ◌≡◌, ◌≢◌, inl, inr, refl, Ptr, null, Bool, true, ℕ, List, ◌∈◌, some, arith, ◌==◌, ◌||◌,
  has, Bool-cases, nil_or_cons, if◌then◌else◌,
}
use os_unibo.Listx.{list_empty}
use os_unibo.Listx.Moves.{list_empty-eq, move, has-move}
use os_unibo.Mikabooq.{readyq, message_h, t_sched, t_wait4me, t_status_w4msg}
use os_unibo.Mikabooq.Layout.{IsThread, IsReceiver}
use os_unibo.Mikabooq.Valid.{Valid}
use os_unibo.Kernel.{Kernel}
use os_unibo.Kernel.Message.{send, send_success, send_failure}
use os_unibo.Kernel.Message.Laws.{Queues, Resumed, send-Resumed, send-Delivered, send-refused}
use os_unibo.Ssi.Settled.{Placed, Settled, Settled-frame}
use os_unibo.Ssi.Terminate.Resume.{queue_of}
use os_unibo.Ssi.Counted.{Counted, Counted-same}
use os_unibo.Ssi.Sound.{Sound, Steady}
use os_unibo.Ssi.Sound.Create.{Shrinks-Sound}

-- Why a message is refused: its receiver has ended, it has no sender, or no descriptor is free.
abbrev pub Refused : Kernel → (dest sender : Ptr) → Type 0
Refused k dest sender =
    (k.mem.t_pcb dest ≡ null) ⊎ ((sender ≡ null) ⊎ (list_empty message_h k.mem.links ≡ true))

module _ {is_head : Ptr → Bool} {q : Ptr → List Ptr} (k : Kernel) (v : Valid is_head q k.mem)
    (settled : Settled is_head q k.mem) (dest sender : Ptr) (msg : ℕ) (id : IsThread dest)
    (in_use : k.mem.t_pcb dest ≢ null) (k' : Kernel) where
  abbrev own : Placed is_head q k.mem dest
  own = settled.placed dest id in_use

  abbrev q' : Ptr → List Ptr
  q' = move (t_sched dest) own.s readyq q

  where_now :
      (a x : Ptr)
      → is_head x ≡ true
      → has a (q' x) ≡ (if a == t_sched dest then x == readyq else has a (q x))
  where_now = has-move v.msgs.linked (t_sched dest) own.s readyq own.sched.is v.readyq_is own.queued

  module _ (resumed : Resumed is_head q k dest sender own.s msg k') where
    placed' : (y : Ptr) → IsThread y → k'.mem.t_pcb y ≢ null → Placed is_head q' k'.mem y
    placed' y iy used = elim (Bool-cases (y == dest)) [
      | inl hit ↦ record {
        s = readyq;
        sched = record { is = v.readyq_is; place = inl (omega arith, omega arith) };
        queued = ground (arith, where_now (t_sched y) readyq v.readyq_is);
        apart = λ e. omega (arith, iy);
      }
      | inr miss ↦
          let was = settled.placed y iy (rw resumed.pcbs at used) in
          record {
            s = was.s;
            sched = record { is = was.sched.is; place = rw resumed.pcbs was.sched.place };
            queued = ground (arith, was.queued, where_now (t_sched y) was.s was.sched.is, miss);
            apart = was.apart;
          }
    ]

    waits' :
        (x a : Ptr)
        → IsThread x
        → k'.mem.t_pcb x ≢ null
        → a ∈ q' (t_wait4me x)
        → k'.mem.t_status (a - t_sched 0) ≡ t_status_w4msg
    waits' x a ix used i =
        let before = rw resumed.pcbs at used in
        let is = v.threads.wait4me_is x ix in
        let (stood, other) : (a ∈ q (t_wait4me x)) × (a ≢ t_sched dest) =
          ground (arith, i, where_now a (t_wait4me x) is, ix) in
        ground (
          arith,
          resumed.other_statuses (a - t_sched 0),
          other,
          v.sched_entry (t_wait4me x) a (queue_of x ix v before) stood,
          settled.waits x a ix before stood,
        )

    Resumed-Settled : Settled is_head q' k'.mem
    Resumed-Settled = record {
      placed = placed';
      waits = waits';
      idle = λ y iy unused.
          let other : y ≢ dest = ground (arith, resumed.pcbs, unused, in_use) in
          let was = settled.idle y iy (rw resumed.pcbs at unused) in
          record {
            not_head = was.not_head;
            not_in = λ h ih. ground (arith, was.not_in h ih, where_now (t_sched y) h ih, other);
          };
      runnable = λ y iy used.
          let before = settled.runnable y iy (rw resumed.pcbs at used) in
          ground (arith, before, resumed.ready, resumed.other_statuses y, Bool-cases (y == dest));
      mgrs = λ p ip. rw resumed.sys_mgrs (settled.mgrs p ip);
    }

module _ {is_head : Ptr → Bool} (k : Kernel) (s : Sound is_head k.mem) (counts : Counted k)
    (dest sender : Ptr) (msg : ℕ) (id : IsThread dest) where
  abbrev receiver : IsReceiver dest
  receiver = record { aligned = id.aligned; from = id.from; below = omega (arith, id) }

  abbrev pub Sent : Type 0
  Sent =
      (k' : Kernel) × (code : ℕ) × (send dest sender msg k ≡ some (k', code))
      × ((code ≡ send_success) ⊎ ((code ≡ send_failure) × Refused k dest sender))
      × Steady is_head k'

  queued-Steady : Queues k s.valid dest sender msg receiver → Sent
  queued-Steady c = elim (Bool-cases (sender == null)) [
    | inl anonymous ↦ (
      k,
      _,
      send-refused k s.valid dest sender msg receiver (inr (c, inl (ground arith))),
      inr (refl, inr (inl (ground arith))),
      record { sound = s; counted = counts },
    )
    | inr real ↦ elim (nil_or_cons (s.q message_h)) [
      | inl e ↦ (
        k,
        _,
        send-refused k s.valid dest sender msg receiver (inr (c, inr e)),
        inr (
          refl,
          inr (
              inr (
                ground
                  (arith, list_empty-eq s.valid.msgs.linked message_h s.valid.msgs.free_is, e))),
        ),
        record { sound = s; counted = counts },
      )
      | inr (x, xs, e) ↦
          let (m', run, sent, valid) =
            send-Delivered k s.valid dest sender msg receiver c (λ z. ground arith)
              (λ z. ground arith) in
          (
            record k { mem = m' },
            _,
            run,
            inl refl,
            record {
              sound =
                  Shrinks-Sound s sent.q' m' (λ p. inl (rw sent.parents refl)) valid
                    (Settled-frame s.valid s.settled sent.pcbs sent.statuses
                      (λ x sched.
                        sent.others x (λ e. ground (arith, sched.place))
                          (λ e. ground (arith, sched.place, id)))
                      (λ h a ih aligned i. ground (
                        arith,
                        sent.others h,
                        sent.valid.free_entry a,
                        sent.valid.pending_entry dest a receiver,
                      ))
                      (λ p ip. rw sent.sys_mgrs (s.settled.mgrs p ip)));
              counted = Counted-same k (record k { mem = m' }) sent.pcbs refl counts;
            },
          )
    ]
  ]

  -- In a sound state `send` returns, and leaves a sound state.
  pub send-Steady : Sent
  send-Steady = elim (Bool-cases (k.mem.t_pcb dest == null)) [
    | inl free ↦ (
      k,
      _,
      send-refused k s.valid dest sender msg receiver
          (inl (s.valid.threads.unused dest id (ground arith))),
      inr (refl, inl (ground arith)),
      record { sound = s; counted = counts },
    )
    | inr used ↦
        let in_use : k.mem.t_pcb dest ≢ null = ground arith in
        elim (s.settled.runnable dest id in_use) [
          | inl ready ↦ queued-Steady (inl ready)
          | inr waiting ↦
              elim (Bool-cases
                (k.mem.t_wait4sender dest == sender || k.mem.t_wait4sender dest == null)) [
                  | inl hit ↦
                      let at = own k s.valid s.settled dest sender msg id in_use k in
                      let (k', run, resumed) =
                        send-Resumed k s.valid dest sender msg receiver at.s at.sched at.queued
                          waiting (ground arith) in
                      (
                        k',
                        _,
                        run,
                        inl refl,
                        record {
                          sound =
                              Shrinks-Sound s (move (t_sched dest) at.s readyq s.q) k'.mem
                                (λ p. inl (rw resumed.parents refl)) resumed.valid
                                (Resumed-Settled k s.valid s.settled dest sender msg id in_use k'
                                  resumed);
                          counted = Counted-same k k' resumed.pcbs resumed.count counts;
                        },
                      )
                  | inr miss ↦
                      queued-Steady (inr (waiting, (λ e. ground arith), (λ e. ground arith)))
                ]
        ]
  ]
