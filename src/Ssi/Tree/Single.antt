-- ===== src/Ssi/Tree/Single.antt =====
-- `terminate_thread_s`, whether or not the thread is the last of its process.
use os_unibo.Base.{◌≡◌, ◌≢◌, ◌⊎◌, ◌<◌, inl, inr, Ptr, null, Bool, List, [], ◌∷◌, ℕ, some, ◌∙◌}
use os_unibo.Mikabooq.{max_proc, p_threads, t_next}
use os_unibo.Mikabooq.Layout.{IsThread}
use os_unibo.Mikabooq.Valid.{Valid}
use os_unibo.Kernel.{Kernel}
use os_unibo.Ssi.Settled.{Settled}
use os_unibo.Ssi.Tree.{terminate_thread_s}
use os_unibo.Ssi.Tree.Under.{IsRanked, Terminated}
use os_unibo.Ssi.Tree.Laws.{terminate_process_s-Terminated}
use os_unibo.Ssi.Tree.Ended.{Ended}
use os_unibo.Ssi.Tree.Alone.{
  single_or_not, terminate_thread_s-terminate_process_s, terminate_thread_s-Ended,
}

-- At the request of a thread of a process other than the root to end, given that every
-- thread in use is in a scheduling queue and that the processes form a tree of at most as many levels
-- as there are processes, the loops end within their bounds:
-- if the thread is the only one of its process, the process ends with all its progeny and their
-- threads; otherwise the thread leaves its process alone, the others stay in scheduling queues, and
-- `thread_count` goes down by one. The tables are sound in both cases.
pub terminate_thread_s-Terminated :
    {is_head : Ptr → Bool} {q : Ptr → List Ptr} (rank : Ptr → ℕ) (k : Kernel)
    (v : Valid is_head q k.mem) (settled : Settled is_head q k.mem) (t : Ptr)
    → IsThread t
    → k.mem.t_pcb t ≢ null
    → k.mem.p_parent (k.mem.t_pcb t) ≢ null
    → IsRanked rank k.mem
    → rank (k.mem.t_pcb t) < max_proc
    → (k' : Kernel) × (terminate_thread_s t k ≡ some k')
      × (((q (p_threads (k.mem.t_pcb t)) ≡ t_next t ∷ []) × Terminated is_head k (k.mem.t_pcb t) k')
          ⊎ ((q (p_threads (k.mem.t_pcb t)) ≢ t_next t ∷ []) × Ended is_head q k t k'))
terminate_thread_s-Terminated rank k v settled t it in_use has_parent ranked low =
    elim (single_or_not k v settled t it in_use) [
      | inl alone ↦
          let (k', run, done) =
            terminate_process_s-Terminated rank k v settled t it in_use has_parent ranked low in
          (
            k',
            terminate_thread_s-terminate_process_s k v settled t it in_use alone ∙ run,
            inl (alone, done),
          )
      | inr others ↦
          let (k', run, ended) = terminate_thread_s-Ended k v settled t it in_use others in
          (k', run, inr (others, ended))
    ]
