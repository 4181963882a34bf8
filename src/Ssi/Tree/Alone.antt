-- ===== src/Ssi/Tree/Alone.antt =====
-- `terminate_thread_s`: the last thread of a process takes the process with it.
use os_unibo.Base.{
  ◌≡◌, ◌≢◌, ◌⊎◌, refl, ap, ◌∙◌, Ptr, null, Bool, true, List, [], ◌∷◌, some, ◌∈◌, arith, inl, inr,
  Bool-cases,
}
use os_unibo.Listx.{list_is_only}
use os_unibo.Listx.Ring.{is_single, list_is_only-is_single}
use os_unibo.Mikabooq.{p_threads, t_next}
use os_unibo.Mikabooq.Layout.{IsThread}
use os_unibo.Mikabooq.Valid.{Valid}
use os_unibo.Kernel.{Kernel}
use os_unibo.Ssi.Create.{get_processid_s}
use os_unibo.Ssi.Tree.{terminate_thread_s, terminate_process_s}
use os_unibo.Ssi.Settled.{Settled}
use os_unibo.Ssi.Tree.Ended.{Ended, terminate_one-Ended}

module _ {is_head : Ptr → Bool} {q : Ptr → List Ptr} (k : Kernel) (v : Valid is_head q k.mem)
    (settled : Settled is_head q k.mem) (t : Ptr) (it : IsThread t)
    (in_use : k.mem.t_pcb t ≢ null) where
  abbrev pub siblings : List Ptr
  siblings = q (p_threads (k.mem.t_pcb t))

  listed : t_next t ∈ siblings
  listed = ground (arith, v.threads.at_home t it, in_use)

  only : list_is_only (t_next t) (p_threads (k.mem.t_pcb t)) k.mem.links ≡ is_single siblings
  only =
      let ip = (v.threads.owner_live t it in_use).0 in
      list_is_only-is_single siblings (t_next t)
        (v.msgs.linked.ring (p_threads (k.mem.t_pcb t)) (v.procs.threads_is (k.mem.t_pcb t) ip))
        listed

  single : (xs : List Ptr) → t_next t ∈ xs → is_single xs ≡ true → xs ≡ t_next t ∷ []
  single [] i e = absurd (ground arith)
  single (x ∷ []) i e = ground arith
  single (x ∷ y ∷ xs) i e = absurd (ground arith)

  pub single_or_not : (siblings ≡ t_next t ∷ []) ⊎ (siblings ≢ t_next t ∷ [])
  single_or_not = elim (Bool-cases (is_single siblings)) [
    | inl hit ↦ inl (single siblings listed hit)
    | inr miss ↦ inr (λ e. cc (miss, ap is_single {y = t_next t ∷ []} e))
  ]

  pub alone-list_is_only :
      siblings ≡ t_next t ∷ []
      → list_is_only (t_next t) (p_threads (k.mem.t_pcb t)) k.mem.links ≡ true
  alone-list_is_only alone = only ∙ ap is_single {y = t_next t ∷ []} alone

  -- The request of the only thread of a process to end is the request to end the process.
  pub terminate_thread_s-terminate_process_s :
      siblings ≡ t_next t ∷ [] → terminate_thread_s t k ≡ terminate_process_s t k
  unfolding terminate_thread_s get_processid_s
  terminate_thread_s-terminate_process_s alone = rw (alone-list_is_only alone) refl

  -- A thread that is not the only one of its process ends alone at its request: it leaves its
  -- process, the count of threads goes down by one, the tables are sound, and the other threads are
  -- in scheduling queues.
  pub terminate_thread_s-Ended :
      siblings ≢ t_next t ∷ []
      → (k' : Kernel) × (terminate_thread_s t k ≡ some k') × Ended is_head q k t k'
  unfolding terminate_thread_s get_processid_s
  terminate_thread_s-Ended others =
      let (k', run, ended) = terminate_one-Ended k v settled t it in_use in
      elim (Bool-cases (is_single siblings)) [
        | inl hit ↦ absurd (others (single siblings listed hit))
        | inr miss ↦ (k', rw (only, miss) run, ended)
      ]
