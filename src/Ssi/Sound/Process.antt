-- ===== src/Ssi/Sound/Process.antt =====
-- `create_process_s` keeps the invariant, also when it has to delete the new process again.
use os_unibo.Base.{
  ◌-◌, ◌≡◌, ◌≢◌, inl, inr, refl, ◌∙◌, Ptr, null, Bool, false, [], arith, ◌==◌, nil_or_cons,
  nil_of_none,
}
use os_unibo.Mikabooq.{Cpu, Mem, thread_h, p_children, p_threads, t_next}
use os_unibo.Mikabooq.Layout.{proc_h, IsProc, IsThread}
use os_unibo.Mikabooq.Proc.{proc_alloc, proc_delete}
use os_unibo.Mikabooq.Proc.Valid.{IsLive, children-nil_of_free}
use os_unibo.Mikabooq.Proc.Alloc.{Allocated as NewProc, proc_alloc-null, proc_alloc-Allocated}
use os_unibo.Mikabooq.Proc.Delete.{Deleted, proc_delete-Deleted}
use os_unibo.Mikabooq.Valid.{Valid}
use os_unibo.Mikabooq.Tables.{deleted-Valid, process-Valid}
use os_unibo.Kernel.{Kernel}
use os_unibo.Ssi.Settled.{Settled}
use os_unibo.Ssi.Create.{create_thread_in, create_process_s, keep_or_delete, get_processid_s}
use os_unibo.Ssi.Create.Laws.{create_thread_in-null}
use os_unibo.Ssi.Create.Placed.{create_thread_in-Settled}
use os_unibo.Ssi.Tree.Laws.{Deleted-Settled}
use os_unibo.Ssi.Counted.{Counted, Counted-same, Counted-create}
use os_unibo.Ssi.Sound.{Sound, Steady}
use os_unibo.Ssi.Sound.Create.{Shrinks-Sound, new-Settled, process-Sound}

module _ {is_head : Ptr → Bool} (k : Kernel) (s : Sound is_head k.mem) (counts : Counted k)
    (initial_state : Cpu) (parent : Ptr) (ip : IsProc parent) (live : IsLive k.mem parent)
    (m1 : Mem) (p : Ptr) (new : NewProc is_head s.q k.mem parent m1 p) where
  abbrev grown : Sound is_head m1
  grown = process-Sound s m1 parent p ip live new

  valid1 : Valid is_head new.q' m1
  valid1 = process-Valid s.valid m1 parent p ip new

  settled1 : Settled is_head new.q' m1
  settled1 = new-Settled s m1 parent p ip live new

  no_children : new.q' (p_children p) ≡ []
  no_children =
      new.others (p_children p) (omega (arith, new.is_proc))
        (ground (arith, live, new.was_free, new.ne_root))
      ∙ children-nil_of_free s.valid.procs p new.is_proc new.ne_root new.was_free

  no_threads : new.q' (p_threads p) ≡ []
  no_threads =
      new.others (p_threads p) (omega (arith, new.is_proc)) (omega (arith, new.is_proc, ip))
      ∙ nil_of_none (s.q (p_threads p)) (λ a i. ground (
        arith,
        s.valid.threads.thread_entry p a new.is_proc i,
        s.valid.threads.owner_live (a - t_next 0),
        new.ne_root,
        new.was_free,
      ))

  has_parent : m1.p_parent p ≢ null
  has_parent = ground (arith, new.parents, ip)

  deletion : Deleted is_head new.q' m1 p (proc_delete p m1).0
  deletion = (proc_delete-Deleted new.valid p new.is_proc has_parent no_children no_threads).1

  undone-Sound : Sound is_head (proc_delete p m1).0
  undone-Sound =
      Shrinks-Sound grown deletion.q' (proc_delete p m1).0 (λ c. ground (arith, deletion.parents))
        (deleted-Valid valid1 (proc_delete p m1).0 p new.is_proc has_parent no_threads deletion)
        (Deleted-Settled m1 valid1 settled1 p new.is_proc has_parent _ deletion)

  alloc-Counted : Counted (record k { mem = m1 })
  alloc-Counted = Counted-same k (record k { mem = m1 }) new.pcbs refl counts

  real : (p == null) ≡ false
  real = ground (arith, new.is_proc)

  pub kept-Steady :
      Steady is_head (keep_or_delete p (create_thread_in initial_state p (record k { mem = m1 }))).0
  unfolding keep_or_delete
  kept-Steady = elim (nil_or_cons (grown.q thread_h)) [
    | inl e ↦
        rw (create_thread_in-null (record k { mem = m1 }) grown.valid initial_state p (inr e))
          (record {
            sound = undone-Sound;
            counted =
                Counted-same (record k { mem = m1 }) (record k { mem = (proc_delete p m1).0 })
                  deletion.pcbs refl alloc-Counted;
          })
    | inr (x, xs, e) ↦
        let (made, settled) =
          create_thread_in-Settled (record k { mem = m1 }) grown.valid grown.settled initial_state p
            new.is_proc (inr has_parent) (λ z. ground arith) in
        let done : ((create_thread_in initial_state p (record k { mem = m1 })).1 == null) ≡ false =
          ground (arith, made.is_thread) in
        rw done (record {
          sound =
              Shrinks-Sound grown made.q' _ (λ c. inl (rw made.parents refl)) made.valid settled;
          counted =
              Counted-create (record k { mem = m1 })
                (create_thread_in initial_state p (record k { mem = m1 })).0 _ p made.is_thread
                made.was_free (λ z. ground (arith, z, new.is_proc)) made.pcbs made.counted
                alloc-Counted;
        })
  ]

module _ {is_head : Ptr → Bool} (k : Kernel) (s : Sound is_head k.mem) (counts : Counted k)
    (initial_state : Cpu) (applicant : Ptr) where
  -- A new process with its thread, or neither if a descriptor is missing.
  pub create_process-Steady :
      IsThread applicant
      → k.mem.t_pcb applicant ≢ null
      → Steady is_head (create_process_s initial_state applicant k).0
  unfolding create_process_s get_processid_s
  create_process-Steady it used =
      let parent = k.mem.t_pcb applicant in
      let (ip, live) = s.valid.threads.owner_live applicant it used in
      elim (nil_or_cons (s.q proc_h)) [
        | inl e ↦
            rw (proc_alloc-null s.valid.procs parent (inr e))
              (record { sound = s; counted = counts })
        | inr (x, xs, e) ↦
            let new = proc_alloc-Allocated s.valid.procs parent ip live (λ z. ground arith) in
            let (m1, p) = proc_alloc parent k.mem in
            rw (real k s counts initial_state parent ip live _ _ new)
              (kept-Steady k s counts initial_state parent ip live _ _ new)
      ]
