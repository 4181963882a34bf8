-- ===== src/Ssi/Manager/Laws.antt =====
-- A manager is set once.
use os_unibo.Base.{
  ◌≡◌, ◌≢◌, ◌⊎◌, ◌<◌, inl, inr, refl, ℕ, Ptr, null, Bool, true, false, List, none, some, ◌==◌,
  arith, Bool-cases,
}
use os_unibo.Mikabooq.{Mem}
use os_unibo.Mikabooq.Valid.{SameTables-fields, Valid, Valid-fields}
use os_unibo.Kernel.{Kernel}
use os_unibo.Mikabooq.{max_proc}
use os_unibo.Mikabooq.Layout.{IsThread, IsReceiver}
use os_unibo.Ssi.Settled.{Settled, Settled-frame}
use os_unibo.Ssi.Tree.Under.{IsRanked, Terminated}
use os_unibo.Ssi.Tree.Laws.{terminate_process_s-Terminated}
use os_unibo.Ssi.Manager.{Slot, pgm, tlb, sys, manager, set_manager, setmgr}

pub set_manager-Valid :
    {is_head : Ptr → Bool} {q : Ptr → List Ptr} (slot : Slot) (proc new_mgr : Ptr) (m : Mem)
    → Valid is_head q m
    → Valid is_head q (set_manager slot proc new_mgr m)
unfolding set_manager
set_manager-Valid pgm proc new_mgr m v =
    Valid-fields _ v (SameTables-fields refl refl refl refl) refl
set_manager-Valid tlb proc new_mgr m v =
    Valid-fields _ v (SameTables-fields refl refl refl refl) refl
set_manager-Valid sys proc new_mgr m v =
    Valid-fields _ v (SameTables-fields refl refl refl refl) refl

pub set_manager-Settled :
    {is_head : Ptr → Bool} {q : Ptr → List Ptr} (slot : Slot) (proc new_mgr : Ptr) (m : Mem)
    → Valid is_head q m
    → Settled is_head q m
    → (slot ≡ sys → (new_mgr ≡ null) ⊎ IsReceiver new_mgr)
    → Settled is_head q (set_manager slot proc new_mgr m)
unfolding set_manager
set_manager-Settled pgm proc new_mgr m v settled ok =
    Settled-frame v settled refl refl (λ x sched. refl) (λ h a ih al i. i) settled.mgrs
set_manager-Settled tlb proc new_mgr m v settled ok =
    Settled-frame v settled refl refl (λ x sched. refl) (λ h a ih al i. i) settled.mgrs
set_manager-Settled sys proc new_mgr m v settled ok =
    Settled-frame v settled refl refl (λ x sched. refl) (λ h a ih al i. i)
      (λ x ix. elim (Bool-cases (x == proc)) [
        | inl hit ↦ rw hit (ok refl)
        | inr miss ↦ rw miss (settled.mgrs x ix)
      ])

manager-set_manager :
    (slot : Slot) (proc new_mgr : Ptr) (m : Mem)
    → let m' = set_manager slot proc new_mgr m in
      (manager slot proc m' ≡ new_mgr) × (m'.t_pcb ≡ m.t_pcb) × (m'.p_parent ≡ m.p_parent)
unfolding manager set_manager
manager-set_manager pgm proc new_mgr m = (ground arith, refl, refl)
manager-set_manager tlb proc new_mgr m = (ground arith, refl, refl)
manager-set_manager sys proc new_mgr m = (ground arith, refl, refl)

-- In a process other than the root, a manager that was not set yet is set and sent back, and the tables
-- stay sound. When a thread of the process then sets it again, to anything but NULL, it gets no
-- reply, and the process has ended with all its progeny and their threads. A system call manager has
-- to be a thread, every thread in use to be in a scheduling queue, and the processes to form a tree of at most as many levels as there are
-- processes.
pub setmgr-once :
    {is_head : Ptr → Bool} {q : Ptr → List Ptr} (rank : Ptr → ℕ) (k : Kernel)
    (v : Valid is_head q k.mem) (settled : Settled is_head q k.mem) (slot : Slot)
    (new_mgr other applicant again : Ptr)
    → new_mgr ≢ null
    → other ≢ null
    → manager slot (k.mem.t_pcb applicant) k.mem ≡ null
    → (slot ≡ sys → IsReceiver new_mgr)
    → IsThread again
    → k.mem.t_pcb again ≡ k.mem.t_pcb applicant
    → k.mem.t_pcb applicant ≢ null
    → k.mem.p_parent (k.mem.t_pcb applicant) ≢ null
    → IsRanked rank k.mem
    → rank (k.mem.t_pcb applicant) < max_proc
    → (k' : Kernel) × (setmgr slot new_mgr applicant k ≡ some (k', some new_mgr))
      × (manager slot (k.mem.t_pcb applicant) k'.mem ≡ new_mgr)
      × Valid is_head q k'.mem
      × (k'' : Kernel) × (setmgr slot other again k' ≡ some (k'', none))
      × Terminated is_head k' (k.mem.t_pcb applicant) k''
unfolding setmgr
setmgr-once rank k v settled slot new_mgr other applicant again ne ne' free receiver it same_proc
      in_use has_parent ranked low =
    let proc = k.mem.t_pcb applicant in
    let k' : Kernel = record k { mem = set_manager slot proc new_mgr k.mem } in
    let isnt : (new_mgr == null) ≡ false = ground arith in
    let isnt_other : (other == null) ≡ false = ground arith in
    let is : (manager slot proc k.mem == null) ≡ true = ground arith in
    let (set, pcbs, parents) = manager-set_manager slot proc new_mgr k.mem in
    let valid = set_manager-Valid slot proc new_mgr k.mem v in
    let home : k'.mem.t_pcb again ≡ proc = rw pcbs same_proc in
    let (k'', run, done) =
      terminate_process_s-Terminated rank k' valid
        (set_manager-Settled slot proc new_mgr k.mem v settled (λ e. inr (receiver e))) again it
        (rw home in_use) (rw (home, parents) has_parent) (rw parents ranked) (rw home low) in
    (
      k',
      rw (isnt, is) refl,
      set,
      valid,
      k'',
      rw (isnt_other, home, set, isnt, run) refl,
      rw home at done,
    )
