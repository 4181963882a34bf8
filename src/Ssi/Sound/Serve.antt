-- ===== src/Ssi/Sound/Serve.antt =====
-- The SSI between two requests: what it serves, and the states that it comes to.
use os_unibo.Base.{
  ◌&&◌, ◌||◌, ℕ, ◌≡◌, ◌≢◌, ◌⊎◌, inl, inr, refl, not, true, false, Ptr, null, Bool, Option, some,
  ◌==◌, Bool-cases,
}
use os_unibo.Mikabooq.{Mem}
use os_unibo.Mikabooq.Layout.{IsThread, IsReceiver}
use os_unibo.Kernel.{Kernel, Machine, word_at}
use os_unibo.Ssi.Manager.{Slot, pgm, tlb, sys, manager, set_manager, setmgr}
use os_unibo.Listx.{list_is_only}
use os_unibo.Mikabooq.{p_threads, t_next}
use os_unibo.Ssi.Tree.Under.{Shrinks}
use os_unibo.Ssi.Manager.Laws.{set_manager-Settled, set_manager-Valid}
use os_unibo.Ssi.Io.{terminal_requester_index, Served, replies, silent, panicked, do_io_s}
use os_unibo.Ssi.Request.{
  Request, get_errno, create_process, create_thread, terminate_process, terminate_thread,
  set_pgm_mgr, set_tlb_mgr, set_sys_mgr, get_cputime, wait_for_clock, do_io, get_processid,
  get_parentprocid, get_mythreadid, encode, Holds,
}
use os_unibo.Ssi.Serve.{reply_with, end_silently, send_back, serve}
use os_unibo.Ssi.Serve.Laws.{respond, serve-respond}
use os_unibo.Ssi.Counted.{Counted}
use os_unibo.Ssi.Sound.{Sound, Steady}
use os_unibo.Ssi.Sound.Create.{Shrinks-Sound}
use os_unibo.Ssi.Sound.Process.{create_process-Steady}
use os_unibo.Ssi.Sound.Steps.{
  create_thread_s-Steady, terminate_process-Steady, terminate_thread-Steady,
}

-- The state in which a request leaves the SSI.
unfoldable pub after : Served → Kernel
after (replies reply k) = k
after (silent k) = k
after (panicked k) = k

-- The request ends the applicant's process: it asks for that, or for the end of the only thread, or
-- it sets a manager again.
unfoldable pub ends : Request → (applicant : Ptr) → Mem → Bool
ends terminate_process t m = true
ends terminate_thread t m = list_is_only (t_next t) (p_threads (m.t_pcb t)) m.links
ends (set_pgm_mgr mgr) t m = not (mgr == null) && not (manager pgm (m.t_pcb t) m == null)
ends (set_tlb_mgr mgr) t m = not (mgr == null) && not (manager tlb (m.t_pcb t) m == null)
ends (set_sys_mgr mgr) t m = not (mgr == null) && not (manager sys (m.t_pcb t) m == null)
ends r t m = false

-- The SSI panics: the device is not terminal 0, or a thread waits for that already.
unfoldable pub panics_for : Request → (terminal : Ptr) → Kernel → Bool
panics_for (do_io device command data1 data2) terminal k =
    not (device == terminal) || not (k.soft_blocked_thread terminal_requester_index == null)
panics_for r terminal k = false

unfoldable pub has_panicked : Served → Bool
has_panicked (replies reply k) = false
has_panicked (silent k) = false
has_panicked (panicked k) = true

-- The applicant is a thread in use. The request is not the one to wait for the clock, a new system
-- call manager is a thread or NULL, and no request ends the root process.
pub record IsFair (m : Mem) (applicant : Ptr) (r : Request) : Type 0 where
  pub is_thread : IsThread applicant
  pub in_use : m.t_pcb applicant ≢ null
  pub no_clock : r ≢ wait_for_clock
  pub manager : (mgr : Ptr) → r ≡ set_sys_mgr mgr → (mgr ≡ null) ⊎ IsReceiver mgr
  pub spared : ends r applicant m ≡ true → m.p_parent (m.t_pcb applicant) ≢ null

-- The request is answered, in a sound state, or else the SSI panics.
abbrev Answers : (Ptr → Bool) → (panics : Bool) → Option Served → Type 0
Answers is_head panics answer =
    (r : Served) × (answer ≡ some r) × (has_panicked r ≡ panics) × Steady is_head (after r)

module _ {is_head : Ptr → Bool} (k : Kernel) (s : Sound is_head k.mem) (counts : Counted k) where
  parent_kept : (slot : Slot) (p new_mgr : Ptr) → Shrinks k.mem (set_manager slot p new_mgr k.mem)
  unfolding set_manager
  parent_kept pgm p new_mgr c = inl refl
  parent_kept tlb p new_mgr c = inl refl
  parent_kept sys p new_mgr c = inl refl

  managed-Sound :
      (slot : Slot) (p new_mgr : Ptr)
      → (slot ≡ sys → (new_mgr ≡ null) ⊎ IsReceiver new_mgr)
      → Sound is_head (set_manager slot p new_mgr k.mem)
  managed-Sound slot p new_mgr ok =
      Shrinks-Sound s s.q _ (parent_kept slot p new_mgr)
        (set_manager-Valid slot p new_mgr k.mem s.valid)
        (set_manager-Settled slot p new_mgr k.mem s.valid s.settled ok)

  managed-Counted :
      (slot : Slot) (p new_mgr : Ptr)
      → Counted (record k { mem = set_manager slot p new_mgr k.mem })
  unfolding set_manager
  managed-Counted pgm p new_mgr = counts
  managed-Counted tlb p new_mgr = counts
  managed-Counted sys p new_mgr = counts

  setmgr-Steady :
      (slot : Slot) (new_mgr applicant : Ptr)
      → (slot ≡ sys → (new_mgr ≡ null) ⊎ IsReceiver new_mgr)
      → IsThread applicant
      → k.mem.t_pcb applicant ≢ null
      → ((not (new_mgr == null) && not (manager slot (k.mem.t_pcb applicant) k.mem == null)) ≡ true
          → k.mem.p_parent (k.mem.t_pcb applicant) ≢ null)
      → Answers is_head false (send_back (setmgr slot new_mgr applicant k))
  unfolding setmgr send_back after has_panicked
  setmgr-Steady slot new_mgr applicant ok it used spared =
      let p = k.mem.t_pcb applicant in
      elim (Bool-cases (new_mgr == null)) [
        | inl nothing ↦
            (replies null k, rw nothing refl, refl, record { sound = s; counted = counts })
        | inr real ↦ elim (Bool-cases (manager slot p k.mem == null)) [
          | inl unset ↦ (
            replies new_mgr (record k { mem = set_manager slot p new_mgr k.mem }),
            rw (real, unset) refl,
            refl,
            record {
              sound = managed-Sound slot p new_mgr ok;
              counted = managed-Counted slot p new_mgr;
            },
          )
          | inr set ↦
              let (k', run, done, sound) =
                terminate_process-Steady k s counts applicant it used
                  (spared (rw (real, set) refl)) in
              (silent k', rw (real, set, run) refl, refl, sound)
        ]
      ]

  do_io-Steady :
      (terminal device : Ptr) (command : ℕ) (applicant : Ptr)
      → (has_panicked (do_io_s terminal device command applicant k) ≡ (
          not (device == terminal) || not (k.soft_blocked_thread terminal_requester_index == null)))
        × Steady is_head (after (do_io_s terminal device command applicant k))
  unfolding do_io_s after has_panicked
  do_io-Steady terminal device command applicant = elim (Bool-cases (device == terminal)) [
    | inl hit ↦ elim (Bool-cases (k.soft_blocked_thread 4 == null)) [
      | inl free ↦ rw (hit, free) (refl, record { sound = s; counted = counts })
      | inr busy ↦ rw (hit, busy) (refl, record { sound = s; counted = counts })
    ]
    | inr miss ↦ rw miss (refl, record { sound = s; counted = counts })
  ]

  respond-Steady :
      (mach : Machine) (terminal applicant behind : Ptr) (r : Request)
      → IsFair k.mem applicant r
      → Answers is_head (panics_for r terminal k) (respond mach terminal applicant behind r k)
  unfolding respond ends reply_with end_silently after panics_for has_panicked
  respond-Steady mach terminal applicant behind get_errno fair =
      (_, refl, refl, record { sound = s; counted = counts })
  respond-Steady mach terminal applicant behind (create_process p) fair = (
    _,
    refl,
    refl,
    create_process-Steady k s counts (mach.read_state k.words p) applicant fair.is_thread
        fair.in_use,
  )
  respond-Steady mach terminal applicant behind (create_thread p) fair = (
    _,
    refl,
    refl,
    create_thread_s-Steady k s counts (mach.read_state k.words p) applicant fair.is_thread
        fair.in_use,
  )
  respond-Steady mach terminal applicant behind terminate_process fair =
      let (k', run, done, sound) =
        terminate_process-Steady k s counts applicant fair.is_thread fair.in_use
          (fair.spared refl) in
      (silent k', rw run refl, refl, sound)
  respond-Steady mach terminal applicant behind terminate_thread fair =
      let (k', run, sound) =
        terminate_thread-Steady k s counts applicant fair.is_thread fair.in_use fair.spared in
      (silent k', rw run refl, refl, sound)
  respond-Steady mach terminal applicant behind (set_pgm_mgr mgr) fair =
      setmgr-Steady pgm mgr applicant (λ e. cc e) fair.is_thread fair.in_use fair.spared
  respond-Steady mach terminal applicant behind (set_tlb_mgr mgr) fair =
      setmgr-Steady tlb mgr applicant (λ e. cc e) fair.is_thread fair.in_use fair.spared
  respond-Steady mach terminal applicant behind (set_sys_mgr mgr) fair =
      setmgr-Steady sys mgr applicant (λ e. fair.manager mgr refl) fair.is_thread fair.in_use
        fair.spared
  respond-Steady mach terminal applicant behind get_cputime fair =
      (_, refl, refl, record { sound = s; counted = counts })
  respond-Steady mach terminal applicant behind wait_for_clock fair = absurd (fair.no_clock refl)
  respond-Steady mach terminal applicant behind (do_io device command data1 data2) fair =
      let (panics, steady) = do_io-Steady terminal device command applicant in
      (_, refl, panics, steady)
  respond-Steady mach terminal applicant behind (get_processid t) fair =
      (_, refl, refl, record { sound = s; counted = counts })
  respond-Steady mach terminal applicant behind get_mythreadid fair =
      (_, refl, refl, record { sound = s; counted = counts })
  respond-Steady mach terminal applicant behind (get_parentprocid p) fair =
      (_, refl, refl, record { sound = s; counted = counts })

  -- In a sound state, every request of a thread in use is served, unless it is the one to wait for
  -- the clock, names a system call manager that is no thread, or ends the root process: no loop
  -- of the service runs out of its bound, and the state afterwards is sound again.
  pub serve-Steady :
      (mach : Machine) (terminal applicant msg : Ptr) (r : Request)
      → Holds k.words msg 0 (encode r)
      → IsFair k.mem applicant r
      → (served : Served) × (serve mach terminal applicant msg k ≡ some served)
        × (has_panicked served ≡ panics_for r terminal k)
        × Steady is_head (after served)
  serve-Steady mach terminal applicant msg r holds fair =
      rw (serve-respond mach terminal applicant msg r k holds)
        (respond-Steady mach terminal applicant (k.words (word_at msg 1)) r fair)
