-- ===== src/Ssi/Sound.antt =====
-- The invariant that the services of the SSI keep.
pub mod Rank
pub mod Create
pub mod Process
pub mod Steps
pub mod Serve
pub mod Send
pub mod Reached
use os_unibo.Base.{◌≡◌, ◌≢◌, Ptr, null, Bool, List, ◌∈◌, IsDistinct}
use os_unibo.Mikabooq.{Mem}
use os_unibo.Mikabooq.Layout.{IsProc}
use os_unibo.Mikabooq.Proc.Valid.{IsLive}
use os_unibo.Mikabooq.Valid.{Valid}
use os_unibo.Kernel.{Kernel}
use os_unibo.Ssi.Counted.{Counted}
use os_unibo.Ssi.Settled.{Settled}
use os_unibo.Ssi.Tree.Under.{IsRanked}
use os_unibo.Ssi.Sound.Rank.{rank_in}

-- The tables are sound, every thread in use is in a scheduling queue, and the processes are in an
-- order in which parents come before their children.
pub record Sound (is_head : Ptr → Bool) (m : Mem) : Type 0 where
  pub q : Ptr → List Ptr
  pub valid : Valid is_head q m
  pub settled : Settled is_head q m
  pub order : List Ptr
  pub distinct : IsDistinct order
  pub procs : (p : Ptr) → p ∈ order → IsProc p
  pub listed : (p : Ptr) → IsProc p → IsLive m p → p ∈ order
  pub ranked : IsRanked (rank_in order) m

-- A sound state in which `thread_count` is right.
pub record Steady (is_head : Ptr → Bool) (k : Kernel) : Type 0 where
  pub sound : Sound is_head k.mem
  pub counted : Counted k
