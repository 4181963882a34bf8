-- ===== src/Tests/Procs.antt =====
-- Processes.
use os_unibo.Base.{◌≡◌, ◌≢◌, inl, refl, pos, Ptr, [], arith}
use os_unibo.Mikabooq.{Mem, p_children, p_threads}
use os_unibo.Mikabooq.Layout.{root, proc_h, IsProc}
use os_unibo.Mikabooq.Proc.{proc_alloc, proc_delete}
use os_unibo.Mikabooq.Proc.Alloc.{Allocated, proc_alloc-Allocated}
use os_unibo.Mikabooq.Proc.Delete.{Deleted, proc_delete-Deleted}
use os_unibo.Mikabooq.Proc.Roundtrip.{SameTree, no_children, no_threads, proc_delete-proc_alloc}
use os_unibo.Boot.Heads.{queues, series}
use os_unibo.Boot.Valid.{boot_heads, boot_queues, boot-Procs}
use os_unibo.Tests.Blank.{blank, booted}

root-IsProc : IsProc root
root-IsProc = omega arith

some_free : boot_queues proc_h ≢ []
unfolding queues series
some_free = λ e. cc

threadless : (p : Ptr) → IsProc p → boot_queues (p_threads p) ≡ []
unfolding queues
threadless p i = ground arith

-- The first process and what is left.
abbrev with_child : Mem
with_child = (proc_alloc root booted).0

abbrev child : Ptr
child = (proc_alloc root booted).1

proc_alloc-Allocated_example : Allocated boot_heads boot_queues booted root with_child child
proc_alloc-Allocated_example =
    proc_alloc-Allocated (boot-Procs blank) root root-IsProc (inl refl) some_free

abbrev allocated : Allocated boot_heads boot_queues booted root with_child child
allocated = proc_alloc-Allocated (boot-Procs blank) root root-IsProc (inl refl) some_free

child_children : allocated.q' (p_children child) ≡ []
child_children =
    no_children (boot-Procs blank) root root-IsProc (inl refl) (λ p i ne e. threadless p i)
      allocated

child_threads : allocated.q' (p_threads child) ≡ []
child_threads =
    no_threads (boot-Procs blank) root root-IsProc (inl refl) (λ p i ne e. threadless p i) allocated

proc_delete-Deleted_example :
    ((proc_delete child with_child).1 ≡ pos 0)
    × Deleted boot_heads allocated.q' with_child child (proc_delete child with_child).0
proc_delete-Deleted_example =
    proc_delete-Deleted allocated.valid child allocated.is_proc (ground (arith, allocated.parents))
      child_children child_threads

proc_delete-proc_alloc_example :
    ((proc_delete child with_child).1 ≡ pos 0)
    × SameTree boot_heads boot_queues booted (proc_delete child with_child).0
proc_delete-proc_alloc_example =
    proc_delete-proc_alloc (boot-Procs blank) root root-IsProc (inl refl)
      (λ p i ne e. threadless p i) some_free
