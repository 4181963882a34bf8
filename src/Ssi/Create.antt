-- ===== src/Ssi/Create.antt =====
-- SSI/services/create_thread.c, create_process.c, get_id.c, get_errno.c and getcputime.c.
pub mod Laws
pub mod Process
pub mod Placed
use os_unibo.Base.{ℕ, Ptr, null, update, ◌==◌, if◌then◌else◌}
use os_unibo.Mikabooq.{Cpu, Mem, readyq}
use os_unibo.Mikabooq.Proc.{proc_alloc, proc_delete}
use os_unibo.Mikabooq.Thread.{thread_alloc, thread_enqueue}
use os_unibo.Kernel.{Kernel, add_word}

unfoldable pub get_processid_s : Ptr → Mem → Ptr
get_processid_s thread m = m.t_pcb thread

unfoldable pub get_parentprocid_s : Ptr → Mem → Ptr
get_parentprocid_s proc m = m.p_parent proc

unfoldable pub get_mythreadid_s : Ptr → Ptr
get_mythreadid_s thread = thread

unfoldable pub get_errno_s : Ptr → Mem → ℕ
get_errno_s applicant m = m.errno applicant

unfoldable pub getcputime_s : Ptr → Mem → ℕ
getcputime_s applicant m = m.run_time applicant

-- `__create_thread_s`
unfoldable pub create_thread_in : (initial_state : Cpu) (proc : Ptr) → Kernel → Kernel × Ptr
unfolding add_word
create_thread_in initial_state proc k =
    let (m', new_thread) = thread_alloc proc k.mem in
    let loaded = record m' { t_s = update m'.t_s new_thread initial_state } in
    if new_thread == null then (record k { mem = m' }, null) else (
      record k {
        mem = thread_enqueue new_thread readyq loaded;
        thread_count = add_word k.thread_count 1;
      },
      new_thread,
    )

unfoldable pub create_thread_s : (initial_state : Cpu) (applicant : Ptr) → Kernel → Kernel × Ptr
unfolding create_thread_in get_processid_s
create_thread_s initial_state applicant k =
    create_thread_in initial_state (get_processid_s applicant k.mem) k

-- A process whose first thread cannot be created is deleted again.
unfoldable pub keep_or_delete : (new_process : Ptr) → Kernel × Ptr → Kernel × Ptr
keep_or_delete new_process (k, first_thread) =
    if first_thread == null
    then (record k { mem = (proc_delete new_process k.mem).0 }, null)
    else (k, first_thread)

unfoldable pub create_process_s : (initial_state : Cpu) (applicant : Ptr) → Kernel → Kernel × Ptr
unfolding keep_or_delete get_processid_s
create_process_s initial_state applicant k =
    let (m', new_process) = proc_alloc (get_processid_s applicant k.mem) k.mem in
    let k' = record k { mem = m' } in
    if new_process == null
    then (k', null)
    else keep_or_delete new_process (create_thread_in initial_state new_process k')
