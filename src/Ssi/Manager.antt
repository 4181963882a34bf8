-- ===== src/Ssi/Manager.antt =====
-- SSI/services/setmgr.c. The reply is `none` where `send_back` is 0.
pub mod Laws
use os_unibo.Base.{Ptr, null, update, Option, none, some, ◌>>=◌, ◌==◌, if◌then◌else◌}
use os_unibo.Mikabooq.{Mem}
use os_unibo.Kernel.{Kernel}
use os_unibo.Ssi.Tree.{terminate_process_s}

-- Which manager of a process, the field that `mgr` points to.
pub data Slot : Type 0 where
  pgm : Slot
  tlb : Slot
  sys : Slot

unfoldable pub manager : Slot → Ptr → Mem → Ptr
manager pgm proc m = m.pgm_mgr proc
manager tlb proc m = m.tlb_mgr proc
manager sys proc m = m.sys_mgr proc

unfoldable pub set_manager : Slot → (proc new_mgr : Ptr) → Mem → Mem
set_manager pgm proc new_mgr m = record m { pgm_mgr = update m.pgm_mgr proc new_mgr }
set_manager tlb proc new_mgr m = record m { tlb_mgr = update m.tlb_mgr proc new_mgr }
set_manager sys proc new_mgr m = record m { sys_mgr = update m.sys_mgr proc new_mgr }

-- `__setmgr`
unfoldable pub setmgr : Slot → (new_mgr applicant : Ptr) → Kernel → Option (Kernel × Option Ptr)
unfolding manager set_manager
setmgr slot new_mgr applicant k =
    let proc = k.mem.t_pcb applicant in
    let ended = (do k' ← terminate_process_s applicant k; some (k', none)) in
    if new_mgr == null
    then some (k, some null)
    else (if manager slot proc k.mem == null
        then some (record k { mem = set_manager slot proc new_mgr k.mem }, some new_mgr)
        else ended)
