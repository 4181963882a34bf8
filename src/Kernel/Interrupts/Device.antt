-- ===== src/Kernel/Interrupts/Device.antt =====
-- The end of an I/O operation.
use os_unibo.Base.{ℕ, Ptr, update, Bool, List}
use os_unibo.Mikabooq.Valid.{Valid}
use os_unibo.Kernel.{Kernel}
use os_unibo.Kernel.Interrupts.{dev_c_ack}

-- The device is told that its interrupt was seen.
abbrev pub told : Kernel → (command_address : Ptr) → Kernel
told k command_address = record k { words = update k.words command_address dev_c_ack }

module _ {is_head : Ptr → Bool} {q : Ptr → List Ptr} (k : Kernel) (v : Valid is_head q k.mem)
    (command_address : Ptr) (index : ℕ) where
  abbrev pub blocked : Ptr
  blocked = k.soft_blocked_thread index
