-- ===== src/Kernel/Trap/Laws.antt =====
-- A trap is handed over to the manager of its kind.
use os_unibo.Base.{◌≡◌, refl, ℕ, Ptr, null, Bool, false, List, some, ◌==◌, arith}
use os_unibo.Listx.Queues.{IsLoose}
use os_unibo.Mikabooq.{Cpu, t_sched}
use os_unibo.Mikabooq.Layout.{IsReceiver}
use os_unibo.Mikabooq.Valid.{Valid, Valid-fields, SameTables-fields}
use os_unibo.Kernel.{Kernel, Machine, Outcome, sub_word}
use os_unibo.Kernel.Message.{send, send_success}
use os_unibo.Kernel.Trap.{t_s_at, save_trapped, trap_h, pgmtrap_h, tlbtrap_h}
use os_unibo.Kernel.Trap.Handover.{Attends, Attends-fields, HandedOver, hand_over}

-- `msgsend` of the nucleus is its own system call in the name of the running thread: it returns in the
-- state that `send` leaves, but for the area in which the call saved the processor.
abbrev pub Sends : (msgsend : Ptr → ℕ → Kernel → Kernel) → Type 0
Sends msgsend =
    (dest : Ptr) (payload : ℕ) (k k' : Kernel)
    → send dest k.current_thread payload k ≡ some (k', send_success)
    → (cpu : Cpu) × (msgsend dest payload k ≡ record k' { sysbk_old = cpu })

-- The registers such that the instruction is repeated.
abbrev pub repeated : Cpu → Cpu
repeated cpu = record cpu { pc = sub_word cpu.pc 4 }

-- The two handlers, with the managers and the areas that they use.
pub data TrapKind : Type 0 where
  program tlb : TrapKind

abbrev pub manager_of : TrapKind → Kernel → Ptr
manager_of program k = k.mem.pgm_mgr (k.mem.t_pcb k.current_thread)
manager_of tlb k = k.mem.tlb_mgr (k.mem.t_pcb k.current_thread)

abbrev pub area_of : TrapKind → Kernel → Cpu
area_of program k = k.pgmtrap_old
area_of tlb k = k.tlb_old

abbrev pub handler_of : TrapKind → Machine → Kernel → Outcome
handler_of program = pgmtrap_h
handler_of tlb = tlbtrap_h

module _ {is_head : Ptr → Bool} {q : Ptr → List Ptr} (mach : Machine) (sends : Sends mach.msgsend)
    (k : Kernel) (v : Valid is_head q k.mem) (running : IsReceiver k.current_thread)
    (loose : IsLoose is_head q (t_sched k.current_thread)) (h : Ptr) where
  trap_h-HandedOver :
      (mgr : Ptr) (oldarea : Cpu)
      → Attends is_head q k mgr h
      → HandedOver is_head q
          (save_trapped oldarea k)
          mgr
          h
          (t_s_at k.current_thread)
          (repeated oldarea)
          (trap_h mach mgr oldarea k)
  unfolding save_trapped trap_h
  trap_h-HandedOver mgr oldarea attends =
      let trapped = save_trapped oldarea k in
      let set : (mgr == null) ≡ false = ground (arith, attends.receiver) in
      hand_over trapped (Valid-fields _ v (SameTables-fields refl refl refl refl) refl) running
        loose mgr h (Attends-fields trapped refl refl refl refl attends) (t_s_at k.current_thread)
        (repeated oldarea) (trap_h mach mgr oldarea k) (ground arith)
        (λ k' run.
          let (cpu, e) = sends mgr (t_s_at k.current_thread) trapped k' run in
          (cpu, rw (set, e) refl))

  -- Given that `msgsend` sends, a trap is handed over to the manager of its kind for the process, if
  -- that manager waits for a message of the thread or of anybody: it gets the address of the
  -- registers of the thread, which are saved such that the instruction is repeated.
  pub handler-HandedOver :
      (kind : TrapKind)
      → Attends is_head q k (manager_of kind k) h
      → HandedOver is_head q
          (save_trapped (area_of kind k) k)
          (manager_of kind k)
          h
          (t_s_at k.current_thread)
          (repeated (area_of kind k))
          (handler_of kind mach k)
  unfolding pgmtrap_h tlbtrap_h
  handler-HandedOver program = trap_h-HandedOver (manager_of program k) k.pgmtrap_old
  handler-HandedOver tlb = trap_h-HandedOver (manager_of tlb k) k.tlb_old
