-- ===== src/Ssi/Terminate/Resume.antt =====
-- The threads that wait for a message of a thread that ends.
use mathlib.Core.List.{append_assoc, append-nil}
use os_unibo.Base.{
  ◌-◌, ◌<◌, ◌≡◌, ◌≢◌, refl, ◌∙◌, sym, Ptr, null, update, ℕ, zero, suc, Bool, List, [], ◌∷◌, ◌++◌,
  some, ◌==◌, arith, length, false, nil_or_cons, inl, inr, ◌∈◌, ◌∉◌, erase, Bool-cases,
}
use os_unibo.Listx.Moves.{move}
use os_unibo.Mikabooq.{Mem, readyq, t_sched, t_wait4me, t_status_ready, t_status_w4msg}
use os_unibo.Mikabooq.Layout.{IsThread, IsSchedLink}
use os_unibo.Mikabooq.Valid.{Valid, IsSchedQueue, Valid-fields, SameTables-fields}
use os_unibo.Mikabooq.Sched.{thread_qhead-nil, thread_dequeue-run}
use os_unibo.Kernel.{Kernel}
use os_unibo.Kernel.Message.Laws.{Resumed, resume_thread-Resumed}
use os_unibo.Ssi.Terminate.{resume_failed, resume_waiting}

-- The threads that waited for `t` have moved to the end of the ready queue, in their order. Each has
-- received NULL from NULL, with the error number 1; the other threads are as they were.
pub record Woken (is_head : Ptr → Bool) (q : Ptr → List Ptr) (k : Kernel) (t : Ptr) (k' : Kernel)
    : Type 0 where
  pub q' : Ptr → List Ptr
  pub valid : Valid is_head q' k'.mem
  pub empty : q' (t_wait4me t) ≡ []
  pub ready : q' readyq ≡ q readyq ++ q (t_wait4me t)
  pub others : (x : Ptr) → x ≢ t_wait4me t → x ≢ readyq → q' x ≡ q x
  pub failed :
      (a : Ptr)
      → a ∈ q (t_wait4me t)
      → ((k'.mem.t_s (a - t_sched 0)).a1 ≡ null)
        × (k'.mem.errno (a - t_sched 0) ≡ 1)
        × (k'.mem.t_status (a - t_sched 0) ≡ t_status_ready)
  pub kept :
      (y : Ptr)
      → t_sched y ∉ q (t_wait4me t)
      → (k'.mem.t_s y ≡ k.mem.t_s y)
        × (k'.mem.errno y ≡ k.mem.errno y)
        × (k'.mem.t_status y ≡ k.mem.t_status y)
  pub pcbs : k'.mem.t_pcb ≡ k.mem.t_pcb
  pub parents : k'.mem.p_parent ≡ k.mem.p_parent
  pub sys_mgrs : k'.mem.sys_mgr ≡ k.mem.sys_mgr
  pub count : k'.thread_count ≡ k.thread_count

-- Whoever stands in the queue of `t` waits for a message.
abbrev pub AllWait : (Ptr → List Ptr) → Kernel → Ptr → Type 0
AllWait q k t = (a : Ptr) → a ∈ q (t_wait4me t) → k.mem.t_status (a - t_sched 0) ≡ t_status_w4msg

-- `x` has left the queue of `t` for the ready queue.
abbrev moved : (t x : Ptr) → (Ptr → List Ptr) → Ptr → List Ptr
moved t x q = move (t_sched (x - t_sched 0)) (t_wait4me t) readyq q

module _ {is_head : Ptr → Bool} (t : Ptr) (it : IsThread t) where
  pub queue_of :
      {q : Ptr → List Ptr} {m : Mem}
      → Valid is_head q m
      → m.t_pcb t ≢ null
      → IsSchedQueue is_head m (t_wait4me t)
  queue_of {m} v in_use =
      let back : t_wait4me t - t_wait4me 0 ≡ t = omega arith in
      record {
        is = v.threads.wait4me_is t it;
        place = inr (omega (arith, it), omega (arith, it), rw back (λ _. in_use));
      }

  module _ {q : Ptr → List Ptr} (k : Kernel) (v : Valid is_head q k.mem)
      (in_use : k.mem.t_pcb t ≢ null) where
    resume_none : (fuel : ℕ) → q (t_wait4me t) ≡ [] → resume_waiting (suc fuel) t k ≡ some k
    unfolding resume_waiting
    resume_none fuel e = rw ((thread_qhead-nil v (t_wait4me t) (queue_of v in_use) e).0) refl

    module _ (x : Ptr) (xs : List Ptr) (e : q (t_wait4me t) ≡ x ∷ xs) (waits : AllWait q k t) where
      link : IsSchedLink x
      link = v.sched_entry (t_wait4me t) x (queue_of v in_use) (ground arith)

      resume_first :
          (fuel : ℕ)
          → resume_waiting (suc fuel) t k ≡ resume_waiting fuel t (resume_failed (x - t_sched 0) k)
      unfolding resume_waiting
      resume_first fuel =
          let real : (x - t_sched 0 == null) ≡ false = ground (arith, link) in
          rw ((thread_dequeue-run v (t_wait4me t) (queue_of v in_use) x xs e).1, real) refl

      -- The error number is set first.
      abbrev marked : Kernel
      marked = record k { mem = record (k.mem) { errno = update k.mem.errno (x - t_sched 0) 1 } }

      first-Resumed :
          Resumed is_head q marked
            (x - t_sched 0)
            null
            (t_wait4me t)
            0
            (resume_failed (x - t_sched 0) k)
      unfolding resume_failed
      first-Resumed =
          resume_thread-Resumed marked
            (Valid-fields _ v (SameTables-fields refl refl refl refl) refl) (x - t_sched 0) null 0
            link.thread (t_wait4me t)
            (record { is = (queue_of v in_use).is; place = (queue_of v in_use).place })
            (ground (arith, link)) (waits x (ground arith))

      moved-eq :
          (moved t x q (t_wait4me t) ≡ xs)
          × (moved t x q readyq ≡ q readyq ++ x ∷ [])
          × ((y : Ptr) → y ≢ t_wait4me t → y ≢ readyq → moved t x q y ≡ q y)
      unfolding move erase
      moved-eq = (
        ground (arith, link, it),
        ground (arith, link, it),
        λ y ny nr. ground (arith, it, ny, nr),
      )

      apart : x ∉ xs
      apart = (rw e at (v.msgs.linked.ring (t_wait4me t) (v.threads.wait4me_is t it)).distinct).0

      alone : (a : Ptr) → a ∈ xs → (a - t_sched 0 ≢ x - t_sched 0) × (a ∈ q (t_wait4me t))
      alone a i =
          let in_q : a ∈ q (t_wait4me t) = ground arith in
          (
            λ same.
                ground (arith, apart, v.sched_entry (t_wait4me t) a (queue_of v in_use) in_q, link),
            in_q,
          )

      still_wait : AllWait (moved t x q) (resume_failed (x - t_sched 0) k) t
      still_wait a i =
          let (other, in_q) = alone a (rw (moved-eq.0) at i) in
          first-Resumed.other_statuses (a - t_sched 0) other ∙ waits a in_q

      module _ (k' : Kernel)
          (rest : Woken is_head (moved t x q) (resume_failed (x - t_sched 0) k) t k') where
        step_failed :
            (a : Ptr)
            → a ∈ q (t_wait4me t)
            → ((k'.mem.t_s (a - t_sched 0)).a1 ≡ null)
              × (k'.mem.errno (a - t_sched 0) ≡ 1)
              × (k'.mem.t_status (a - t_sched 0) ≡ t_status_ready)
        step_failed a i = elim (Bool-cases (a == x)) [
          | inl hit ↦
              let same : a ≡ x = ground arith in
              let back : t_sched (x - t_sched 0) ≡ x = omega (arith, link) in
              let out : t_sched (x - t_sched 0) ∉ xs = rw back apart in
              let (state, errno, status) = rest.kept (x - t_sched 0) (rw (moved-eq.0) out) in
              (
                rw (same, state) first-Resumed.returned,
                rw (same, errno, first-Resumed.errnos) (ground arith),
                rw (same, status) first-Resumed.ready,
              )
          | inr miss ↦ rest.failed a (rw (moved-eq.0) (ground arith))
        ]

        step_kept :
            (y : Ptr)
            → t_sched y ∉ q (t_wait4me t)
            → (k'.mem.t_s y ≡ k.mem.t_s y)
              × (k'.mem.errno y ≡ k.mem.errno y)
              × (k'.mem.t_status y ≡ k.mem.t_status y)
        step_kept y out =
            let other : y ≢ x - t_sched 0 = λ same. ground (arith, link) in
            let (state, errno, status) = rest.kept y (rw (moved-eq.0) (ground arith)) in
            (
              state ∙ first-Resumed.other_states y other,
              rw (errno, first-Resumed.errnos) (ground arith),
              status ∙ first-Resumed.other_statuses y other,
            )

        step-Woken : Woken is_head q k t k'
        step-Woken = record {
          q' = rest.q';
          valid = rest.valid;
          empty = rest.empty;
          ready = rest.ready ∙ rw (moved-eq.1, moved-eq.0, e) (append_assoc (q readyq) (x ∷ []) xs);
          others = λ y nt nr. rest.others y nt nr ∙ moved-eq.2 y nt nr;
          failed = step_failed;
          kept = step_kept;
          pcbs = rest.pcbs ∙ first-Resumed.pcbs;
          parents = rest.parents ∙ first-Resumed.parents;
          sys_mgrs = rest.sys_mgrs ∙ first-Resumed.sys_mgrs;
          count = rest.count ∙ first-Resumed.count;
        }

  -- With more rounds than there are waiting threads, the loop ends and all of them are woken.
  pub resume_waiting-Woken :
      (fuel : ℕ) {q : Ptr → List Ptr} (k : Kernel) (v : Valid is_head q k.mem)
      → k.mem.t_pcb t ≢ null
      → AllWait q k t
      → length (q (t_wait4me t)) < fuel
      → (k' : Kernel) × (resume_waiting fuel t k ≡ some k') × Woken is_head q k t k'
  resume_waiting-Woken zero k v in_use waits l = absurd (omega arith)
  resume_waiting-Woken (suc fuel) {q} k v in_use waits l = elim (nil_or_cons (q (t_wait4me t))) [
    | inl e ↦ (
      k,
      resume_none k v in_use fuel e,
      record {
        q' = q;
        valid = v;
        empty = e;
        ready = rw e (sym (append-nil (q readyq)));
        others = λ x _ _. refl;
        failed = λ a i. absurd (ground arith);
        kept = λ y _. (refl, refl, refl);
        pcbs = refl;
        parents = refl;
        sys_mgrs = refl;
        count = refl;
      },
    )
    | inr (x, xs, e) ↦
        let step = first-Resumed k v in_use x xs e waits in
        let (k', run, rest) =
          resume_waiting-Woken fuel (resume_failed (x - t_sched 0) k) step.valid
            (rw step.pcbs in_use) (still_wait k v in_use x xs e waits)
            (rw ((moved-eq k v in_use x xs e waits).0) (ground arith)) in
        (
          k',
          resume_first k v in_use x xs e waits fuel ∙ run,
          step-Woken k v in_use x xs e waits k' rest,
        )
  ]
