-- ===== src/Ssi/Tree/Threads.antt =====
-- The first loop of `__terminate_process_s` ends all the threads of the process.
use os_unibo.Base.{
  ℕ, zero, suc, ◌+◌, ◌-◌, ◌<◌, ◌≡◌, ◌≢◌, ◌⊎◌, inl, inr, refl, ◌∙◌, Ptr, null, Bool, false, List, [],
  ◌∷◌, some, ◌==◌, arith, erase, length, nil_or_cons, length-le-room,
}
use os_unibo.Listx.Moves.{list_next-eq}
use os_unibo.Mikabooq.{Mem, max_thread, p_threads, t_next, thread}
use os_unibo.Mikabooq.Layout.{IsNext, IsProc}
use os_unibo.Mikabooq.Proc.{proc_firstthread}
use os_unibo.Mikabooq.Valid.{Valid}
use os_unibo.Kernel.{Kernel}
use os_unibo.Ssi.Terminate.{terminate_one}
use os_unibo.Ssi.Tree.{clean_waiting, terminate_threads}
use os_unibo.Ssi.Counted.{Counted, Counted-same, Counted-end}
use os_unibo.Ssi.Settled.{Settled}
use os_unibo.Ssi.Tree.Ended.{Ended, terminate_one-Ended}
use os_unibo.Ssi.Tree.Clean.{Cleaned, clean_waiting-Cleaned}

-- The process has no thread, and only threads of it have ended.
pub record Emptied (is_head : Ptr → Bool) (q : Ptr → List Ptr) (k : Kernel) (proc : Ptr)
    (k' : Kernel) : Type 0 where
  pub q' : Ptr → List Ptr
  pub valid : Valid is_head q' k'.mem
  pub settled : Settled is_head q' k'.mem
  pub no_threads : q' (p_threads proc) ≡ []
  pub threads :
      (t : Ptr)
      → (k'.mem.t_pcb t ≡ k.mem.t_pcb t) ⊎ ((k'.mem.t_pcb t ≡ null) × (k.mem.t_pcb t ≡ proc))
  pub parents : k'.mem.p_parent ≡ k.mem.p_parent
  pub counted : Counted k → Counted k'

module _ {is_head : Ptr → Bool} (proc applicant : Ptr) (ip : IsProc proc) where
  module _ {q : Ptr → List Ptr} (k : Kernel) (v : Valid is_head q k.mem)
      (settled : Settled is_head q k.mem) where
    none_left :
        (fuel : ℕ)
        → q (p_threads proc) ≡ []
        → terminate_threads (suc fuel) proc applicant k ≡ some k
    unfolding terminate_threads proc_firstthread
    none_left fuel e =
        ground (arith, list_next-eq v.msgs.linked (p_threads proc) (v.procs.threads_is proc ip))

    module _ (x : Ptr) (xs : List Ptr) (e : q (p_threads proc) ≡ x ∷ xs) where
      first : IsNext x × (k.mem.t_pcb (x - t_next 0) ≡ proc)
      first = v.threads.thread_entry proc x ip (ground arith)

      in_use : k.mem.t_pcb (x - t_next 0) ≢ null
      in_use = ground (arith, first, ip)

      first_thread : proc_firstthread proc k.mem ≡ x - t_next 0
      unfolding proc_firstthread
      first_thread =
          ground
            (arith, list_next-eq v.msgs.linked (p_threads proc) (v.procs.threads_is proc ip), first)

      first_round :
          (fuel : ℕ) (m1 : Mem) (k2 : Kernel)
          → clean_waiting (x - t_next 0) applicant k ≡ some (record k { mem = m1 })
          → terminate_one (x - t_next 0) (record k { mem = m1 }) ≡ some k2
          → terminate_threads (suc fuel) proc applicant k ≡ terminate_threads fuel proc applicant k2
      unfolding terminate_threads
      first_round fuel m1 k2 cleaned ended =
          let real : (x - t_next 0 == null) ≡ false = ground (arith, first) in
          rw (first_thread, real, cleaned, ended) refl

      module _ (m1 : Mem) (c : Cleaned is_head q k.mem m1) (k2 : Kernel)
          (ended : Ended is_head c.q' (record k { mem = m1 }) (x - t_next 0) k2) where
        rest_threads : ended.q' (p_threads proc) ≡ xs
        unfolding erase
        rest_threads =
            let kept : c.q' (p_threads proc) ≡ q (p_threads proc) =
              c.others (p_threads proc) (λ z. omega (arith, ip))
                (λ z. omega (arith, ip, c.receiver)) in
            ground (arith, ended.threads, c.pcbs, first, kept)

        add_round :
            (k' : Kernel) → Emptied is_head ended.q' k2 proc k' → Emptied is_head q k proc k'
        add_round k' rest = record {
          q' = rest.q';
          valid = rest.valid;
          settled = rest.settled;
          no_threads = rest.no_threads;
          threads = λ t. ground (arith, rest.threads t, ended.pcbs, c.pcbs, first);
          parents = rest.parents ∙ ended.parents ∙ c.parents;
          counted = λ before. rest.counted (
              Counted-end (record k { mem = m1 }) k2 (x - t_next 0) first.0.thread
                (rw c.pcbs in_use) ended.pcbs ended.count
                (Counted-same k (record k { mem = m1 }) c.pcbs refl before));
        }

  terminate_threads-Emptied :
      (fuel : ℕ) {q : Ptr → List Ptr} (k : Kernel) (v : Valid is_head q k.mem)
      → Settled is_head q k.mem
      → length (q (p_threads proc)) < fuel
      → (k' : Kernel) × (terminate_threads fuel proc applicant k ≡ some k')
        × Emptied is_head q k proc k'
  terminate_threads-Emptied zero k v settled l = absurd (omega arith)
  terminate_threads-Emptied (suc fuel) {q} k v settled l = elim (nil_or_cons (q (p_threads proc))) [
    | inl e ↦ (
      k,
      none_left k v settled fuel e,
      record {
        q' = q;
        valid = v;
        settled = settled;
        no_threads = e;
        threads = λ t. inl refl;
        parents = refl;
        counted = λ before. before;
      },
    )
    | inr (x, xs, e) ↦
        let t = x - t_next 0 in
        let it = (first k v settled x xs e).0.thread in
        let used = in_use k v settled x xs e in
        let (m1, cleaned, c, settled1) = clean_waiting-Cleaned k v settled t applicant it used in
        let (k2, run, ended) =
          terminate_one-Ended (record k { mem = m1 }) c.valid settled1 t it (rw c.pcbs used) in
        let (k', more, rest) =
          terminate_threads-Emptied fuel k2 ended.valid ended.settled
            (rw (rest_threads k v settled x xs e m1 c k2 ended) (ground arith)) in
        (
          k',
          first_round k v settled x xs e fuel m1 k2 cleaned run ∙ more,
          add_round k v settled x xs e m1 c k2 ended k' rest,
        )
  ]

  -- The rounds that the model allows are enough.
  pub terminate_all-Emptied :
      {q : Ptr → List Ptr} (k : Kernel) (v : Valid is_head q k.mem)
      → Settled is_head q k.mem
      → (k' : Kernel) × (terminate_threads (max_thread + 1) proc applicant k ≡ some k')
        × Emptied is_head q k proc k'
  terminate_all-Emptied {q} k v settled = terminate_threads-Emptied (max_thread + 1) k v settled (
      omega (
        arith,
        length-le-room (t_next (thread 0)) max_thread (q (p_threads proc))
            (v.msgs.linked.ring (p_threads proc) (v.procs.threads_is proc ip)).distinct
            (λ a i. omega (arith, v.threads.thread_entry proc a ip i)),
      ))
