-- ===== src/Kernel/Message.antt =====
-- handlers/syscall.c: sending a message.
pub mod Laws
use os_unibo.Base.{
  ℕ, Ptr, null, update, ◌||◌, ℤ, pos, negsuc, Option, none, some, ◌==◌, if◌then◌else◌,
}
use os_unibo.Mikabooq.{Cpu, Mem, readyq, t_status_none, t_status_ready, t_status_w4msg}
use os_unibo.Mikabooq.Thread.{thread_enqueue, thread_outqueue}
use os_unibo.Mikabooq.Msgq.{msgq_add}
use os_unibo.Kernel.{Kernel, on_mem}

abbrev pub send_success : ℕ
send_success = 0

-- `SEND_FAILURE` is -1, and `send` returns it as an `unsigned int`.
abbrev pub send_failure : ℕ
send_failure = 0xffff_ffff

-- `msgq_add(…) == 0 ? SEND_SUCCESS : SEND_FAILURE`
unfoldable pub deliver_code : ℤ → ℕ
deliver_code (pos c) = if c == 0 then send_success else send_failure
deliver_code (negsuc c) = send_failure

unfoldable pub deliver_msg : (dest sender : Ptr) → ℕ → Kernel → Kernel × ℕ
unfolding deliver_code
deliver_msg dest sender msg k =
    let (m', code) = msgq_add sender dest msg k.mem in (record k { mem = m' }, deliver_code code)

unfoldable pub deliver_directly : (dest recv_rval : Ptr) → ℕ → Kernel → Kernel
deliver_directly dest recv_rval msg k =
    let saved = record (k.mem.t_s dest) { a1 = recv_rval } in
    let k' = record k { mem = record (k.mem) { t_s = update k.mem.t_s dest saved } } in
    if saved.a3 == null then k' else record k' { words = update k'.words saved.a3 msg }

unfoldable pub resume_thread : (resuming recv_rval : Ptr) → ℕ → Kernel → Kernel
unfolding deliver_directly
resume_thread resuming recv_rval msg k =
    let k' = deliver_directly resuming recv_rval msg k in
    let m = record (k'.mem) {
      t_status = update k'.mem.t_status resuming t_status_ready;
      t_wait4sender = update k'.mem.t_wait4sender resuming null;
    } in
    record k' { mem = thread_enqueue resuming readyq (thread_outqueue resuming m) }

-- `none` is the case that the switch leaves out, where the result is undefined.
unfoldable pub send : (dest sender : Ptr) → ℕ → Kernel → Option (Kernel × ℕ)
unfolding deliver_msg resume_thread
send dest sender msg k =
    let status = k.mem.t_status dest in
    if status == t_status_ready
    then some (deliver_msg dest sender msg k)
    else (if status == t_status_w4msg
        then (if k.mem.t_wait4sender dest == sender || k.mem.t_wait4sender dest == null
            then some (resume_thread dest sender msg k, send_success)
            else some (deliver_msg dest sender msg k))
        else (if status == t_status_none then some (k, send_failure) else none))
