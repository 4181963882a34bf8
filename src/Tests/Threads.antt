-- ===== src/Tests/Threads.antt =====
-- Threads.
use os_unibo.Base.{◌≢◌, inl, refl, Ptr, [], arith}
use os_unibo.Mikabooq.{Mem, thread_h}
use os_unibo.Mikabooq.Layout.{root, IsProc}
use os_unibo.Mikabooq.Thread.{thread_alloc}
use os_unibo.Mikabooq.Thread.Alloc.{Allocated, thread_alloc-Allocated}
use os_unibo.Boot.Heads.{queues, series}
use os_unibo.Boot.Valid.{boot_heads, boot_queues, boot-Threads}
use os_unibo.Tests.Blank.{blank, booted}

root-IsProc : IsProc root
root-IsProc = omega arith

some_free : boot_queues thread_h ≢ []
unfolding queues series
some_free = λ e. cc

abbrev with_thread : Mem
with_thread = (thread_alloc root booted).0

abbrev new_thread : Ptr
new_thread = (thread_alloc root booted).1

thread_alloc-Allocated_example : Allocated boot_heads boot_queues booted root with_thread new_thread
thread_alloc-Allocated_example =
    thread_alloc-Allocated (boot-Threads blank) root root-IsProc (inl refl) some_free
