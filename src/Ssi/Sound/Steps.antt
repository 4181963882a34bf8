-- ===== src/Ssi/Sound/Steps.antt =====
-- Every service that creates or ends processes and threads keeps the invariant, whatever the order of
-- the requests.
use os_unibo.Base.{
  true, ◌≡◌, ◌≢◌, ◌<◌, inl, inr, refl, Ptr, null, Bool, some, arith, length-le-room, nil_or_cons,
}
use os_unibo.Listx.{list_is_only}
use os_unibo.Mikabooq.{p_threads, t_next, Cpu, max_proc, process, thread_h}
use os_unibo.Mikabooq.Layout.{IsProc, IsThread}
use os_unibo.Mikabooq.Proc.Valid.{IsLive}
use os_unibo.Kernel.{Kernel}
use os_unibo.Ssi.Create.{create_thread_in, create_thread_s, get_processid_s}
use os_unibo.Ssi.Create.Laws.{create_thread_in-null}
use os_unibo.Ssi.Create.Placed.{create_thread_in-Settled}
use os_unibo.Ssi.Tree.{terminate_process_s, terminate_thread_s}
use os_unibo.Ssi.Tree.Under.{Terminated}
use os_unibo.Ssi.Tree.Laws.{terminate_process_s-Terminated}
use os_unibo.Ssi.Tree.Alone.{
  alone-list_is_only, single_or_not, terminate_thread_s-terminate_process_s,
  terminate_thread_s-Ended,
}
use os_unibo.Ssi.Counted.{Counted, Counted-create, Counted-end}
use os_unibo.Ssi.Sound.{Sound, Steady}
use os_unibo.Ssi.Sound.Rank.{rank_in, rank_in-le}
use os_unibo.Ssi.Sound.Create.{Shrinks-Sound}

module _ {is_head : Ptr → Bool} (k : Kernel) (s : Sound is_head k.mem) (c : Counted k) where
  -- A new thread, or none if no descriptor is free.
  create_thread-Steady :
      (initial_state : Cpu) (proc : Ptr)
      → IsProc proc
      → IsLive k.mem proc
      → Steady is_head (create_thread_in initial_state proc k).0
  create_thread-Steady initial_state proc ip live = elim (nil_or_cons (s.q thread_h)) [
    | inl e ↦
        rw (create_thread_in-null k s.valid initial_state proc (inr e))
          (record { sound = s; counted = c })
    | inr (x, xs, e) ↦
        let (new, settled) =
          create_thread_in-Settled k s.valid s.settled initial_state proc ip live
            (λ z. ground arith) in
        record {
          sound = Shrinks-Sound s new.q' _ (λ c. inl (rw new.parents refl)) new.valid settled;
          counted =
              Counted-create k (create_thread_in initial_state proc k).0 _ proc new.is_thread
                new.was_free (λ z. ground (arith, z, ip)) new.pcbs new.counted c;
        }
  ]

  pub create_thread_s-Steady :
      (initial_state : Cpu) (applicant : Ptr)
      → IsThread applicant
      → k.mem.t_pcb applicant ≢ null
      → Steady is_head (create_thread_s initial_state applicant k).0
  unfolding create_thread_s get_processid_s
  create_thread_s-Steady initial_state applicant it used =
      let (ip, live) = s.valid.threads.owner_live applicant it used in
      create_thread-Steady initial_state (k.mem.t_pcb applicant) ip live

  -- The order of the processes bounds the depth of their tree.
  low_rank : (p : Ptr) → IsProc p → k.mem.p_parent p ≢ null → rank_in s.order p < max_proc
  low_rank p ip has_parent = omega (
    arith,
    s.ranked p ip has_parent,
    rank_in-le s.order (k.mem.p_parent p),
    length-le-room (process 0) 20 s.order s.distinct (λ a i. omega (arith, s.procs a i)),
  )

  -- In a sound state a request to end a process other than the root succeeds, and leaves a sound
  -- state.
  pub terminate_process-Steady :
      (applicant : Ptr)
      → IsThread applicant
      → k.mem.t_pcb applicant ≢ null
      → k.mem.p_parent (k.mem.t_pcb applicant) ≢ null
      → (k' : Kernel) × (terminate_process_s applicant k ≡ some k')
        × Terminated is_head k (k.mem.t_pcb applicant) k'
        × Steady is_head k'
  terminate_process-Steady applicant it used has_parent =
      let p = k.mem.t_pcb applicant in
      let ip = (s.valid.threads.owner_live applicant it used).0 in
      let (k', run, done) =
        terminate_process_s-Terminated (rank_in s.order) k s.valid s.settled applicant it used
          has_parent s.ranked (low_rank p ip has_parent) in
      (
        k',
        run,
        done,
        record {
          sound =
              Shrinks-Sound s done.q' k'.mem
                (λ c. ground (arith, done.other_procs c, done.progeny c)) done.valid done.settled;
          counted = done.counted c;
        },
      )

  -- So does the request to end a thread, whether or not it is the last of its process.
  pub terminate_thread-Steady :
      (applicant : Ptr)
      → IsThread applicant
      → k.mem.t_pcb applicant ≢ null
      → (list_is_only (t_next applicant) (p_threads (k.mem.t_pcb applicant)) k.mem.links ≡ true
          → k.mem.p_parent (k.mem.t_pcb applicant) ≢ null)
      → (k' : Kernel) × (terminate_thread_s applicant k ≡ some k') × Steady is_head k'
  terminate_thread-Steady applicant it used spared =
      elim (single_or_not k s.valid s.settled applicant it used) [
        | inl alone ↦
            let has_parent =
              spared (alone-list_is_only k s.valid s.settled applicant it used alone) in
            let (k', run, done, sound) = terminate_process-Steady applicant it used has_parent in
            (
              k',
              rw
                  (terminate_thread_s-terminate_process_s k s.valid s.settled applicant it used
                    alone)
                  run,
              sound,
            )
        | inr others ↦
            let (k', run, ended) =
              terminate_thread_s-Ended k s.valid s.settled applicant it used others in
            (
              k',
              run,
              record {
                sound =
                    Shrinks-Sound s ended.q' k'.mem (λ c. inl (rw ended.parents refl)) ended.valid
                      ended.settled;
                counted = Counted-end k k' applicant it used ended.pcbs ended.count c;
              },
            )
      ]
