-- ===== src/Ssi/Terminate.antt =====
-- SSI/services/terminate_thread.c and terminate_process.c. Each loop runs on fuel, and `none` means
-- that it ran out.
pub mod Drop
pub mod Resume
pub mod Laws
use mathlib.Core.Option
use os_unibo.Base.{
  ℕ, zero, suc, ◌+◌, Ptr, null, update, false, Option, none, some, ◌==◌, if◌then◌else◌,
}
use os_unibo.Listx.{list_empty}
use os_unibo.Mikabooq.{Mem, max_msg, max_thread, t_msgq, t_wait4me}
use os_unibo.Mikabooq.Layout.{ssi_thread}
use os_unibo.Mikabooq.Thread.{thread_free, thread_qhead}
use os_unibo.Mikabooq.Msgq.{msg_free, msg_qhead, msgq_get}
use os_unibo.Kernel.{Kernel, sub_word}
use os_unibo.Kernel.Message.{resume_thread}
use os_unibo.Ssi.Create.{get_processid_s}

-- The messages of the thread are freed.
unfoldable pub drop_msgs : ℕ → Ptr → Mem → Option Mem
drop_msgs zero t m = none
drop_msgs (suc fuel) t m =
    let rest = drop_msgs fuel t (msg_free (msg_qhead (t_msgq t) m) m).0 in
    if list_empty (t_msgq t) m.links then some m else rest

-- A thread that waited for a message of the terminated one.
unfoldable pub resume_failed : Ptr → Kernel → Kernel
resume_failed to_resume k =
    resume_thread to_resume null 0
      (record k { mem = record (k.mem) { errno = update k.mem.errno to_resume 1 } })

unfoldable pub resume_waiting : ℕ → Ptr → Kernel → Option Kernel
unfolding resume_failed
resume_waiting zero t k = none
resume_waiting (suc fuel) t k =
    let to_resume = thread_qhead (t_wait4me t) k.mem in
    let rest = resume_waiting fuel t (resume_failed to_resume k) in
    if to_resume == null then some k else rest

unfoldable pub free_counted : Ptr → Kernel → Kernel
unfolding sub_word
free_counted t k = record k {
  mem = (thread_free t k.mem).0;
  thread_count = sub_word k.thread_count 1;
}

-- What follows once the messages are gone.
unfoldable pub after_drop : Ptr → Kernel → Option Mem → Option Kernel
unfolding free_counted resume_waiting
after_drop t k none = none
after_drop t k (some m) =
    Option.map (free_counted t) (resume_waiting (max_thread + 2) t (record k { mem = m }))

-- `__terminate_thread_s`
unfoldable pub terminate_one : Ptr → Kernel → Option Kernel
unfolding after_drop
terminate_one t k = after_drop t k (drop_msgs (max_msg + 1) t k.mem)

-- `msgq_get(&terminating, destination, NULL)`, whose results are not used.
unfoldable pub discard_from : (sender destination : Ptr) → Mem → Option Mem
discard_from sender destination m =
    Option.map (λ r. r.0) (msgq_get (some sender) destination false m)

-- `clean_sys_msg`. The last branch reads `sys_mgr`, as the source does.
unfoldable pub clean_sys_msg : Ptr → Mem → Option Mem
unfolding discard_from
clean_sys_msg terminating m =
    let awaited = m.t_wait4sender terminating in
    let proc = get_processid_s terminating m in
    if awaited == ssi_thread
    then discard_from terminating ssi_thread m
    else (if awaited == m.sys_mgr proc
        then discard_from terminating (m.sys_mgr proc) m
        else (if awaited == m.pgm_mgr proc
            then discard_from terminating (m.sys_mgr proc) m
            else some m))
