-- ===== src/Ssi/Tree.antt =====
-- SSI/services/terminate_process.c: a process ends with all its progeny, and terminate_thread_s.
pub mod Others
pub mod Ended
pub mod Clean
pub mod Under
pub mod Children
pub mod Laws
pub mod Alone
pub mod Single
pub mod Threads
use os_unibo.Base.{
  ℕ, zero, suc, ◌+◌, Ptr, null, not, ◌&&◌, Option, none, some, ◌>>=◌, ◌==◌, if◌then◌else◌,
}
use os_unibo.Listx.{list_is_only}
use os_unibo.Mikabooq.{max_proc, max_thread, p_threads, t_next, t_status_w4msg}
use os_unibo.Mikabooq.Proc.{proc_delete, proc_firstchild, proc_firstthread}
use os_unibo.Kernel.{Kernel}
use os_unibo.Ssi.Create.{get_processid_s}
use os_unibo.Ssi.Terminate.{clean_sys_msg, terminate_one}

-- Before a thread other than the applicant ends, its request is taken back if it waits.
unfoldable pub clean_waiting : (thread_term applicant : Ptr) → Kernel → Option Kernel
clean_waiting thread_term applicant k =
    let cleaned = clean_sys_msg thread_term k.mem in
    if not (thread_term == applicant) && k.mem.t_status thread_term == t_status_w4msg
    then (do m ← cleaned; some (record k { mem = m }))
    else some k

-- The loop over the threads of the process.
unfoldable pub terminate_threads : ℕ → (proc applicant : Ptr) → Kernel → Option Kernel
terminate_threads zero proc applicant k = none
terminate_threads (suc fuel) proc applicant k =
    let thread_term = proc_firstthread proc k.mem in
    let rest = (do
      k' ← clean_waiting thread_term applicant k
      k'' ← terminate_one thread_term k'
      terminate_threads fuel proc applicant k'') in
    if thread_term == null then some k else rest

-- The loop over its children, which `terminate` ends.
unfoldable pub terminate_children :
    (terminate : Ptr → Kernel → Option Kernel) → ℕ → Ptr → Kernel → Option Kernel
terminate_children terminate zero proc k = none
terminate_children terminate (suc fuel) proc k =
    let proc_term = proc_firstchild proc k.mem in
    let rest = (do k' ← terminate proc_term k; terminate_children terminate fuel proc k') in
    if proc_term == null then some k else rest

-- `__terminate_process_s`: the first argument bounds the depth of the tree.
unfoldable pub terminate_tree : ℕ → (proc applicant : Ptr) → Kernel → Option Kernel
unfolding terminate_threads terminate_children
terminate_tree zero proc applicant k = none
terminate_tree (suc depth) proc applicant k = do
  k' ← terminate_threads (max_thread + 1) proc applicant k
  k'' ← terminate_children (λ child. terminate_tree depth child null) max_proc proc k'
  some (record k'' { mem = (proc_delete proc k''.mem).0 })

unfoldable pub terminate_process_s : Ptr → Kernel → Option Kernel
unfolding terminate_tree
terminate_process_s applicant k =
    terminate_tree max_proc (get_processid_s applicant k.mem) applicant k

unfoldable pub terminate_thread_s : Ptr → Kernel → Option Kernel
terminate_thread_s thread k =
    if list_is_only (t_next thread) (p_threads (get_processid_s thread k.mem)) k.mem.links
    then terminate_process_s thread k
    else terminate_one thread k
