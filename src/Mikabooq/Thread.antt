-- ===== src/Mikabooq/Thread.antt =====
-- mikabooq.c, threads, and `thread_outqueue` of mikabooq.h.
pub mod Used
pub mod Valid
pub mod Rehome
pub mod Alloc
pub mod Free
use os_unibo.Base.{
  ℕ, zero, suc, ◌+◌, ℤ, pos, negsuc, Ptr, null, update, not, ◌||◌, ◌==◌, if◌then◌else◌,
}
use os_unibo.Listx.{init_list_head, list_add_tail, list_del, list_empty, list_next}
use os_unibo.Mikabooq.{
  Mem, max_thread, thread, thread_h, t_next, t_sched, t_msgq, t_wait4me, p_threads, container_of,
  qhead, dequeue, t_status_none, t_status_ready,
}

unfoldable pub clean_thread_data : Ptr → Mem → Mem
clean_thread_data t m = record m {
  t_pcb = update m.t_pcb t null;
  t_status = update m.t_status t t_status_none;
  t_wait4sender = update m.t_wait4sender t null;
  run_time = update m.run_time t 0;
  errno = update m.errno t 0;
}

-- The body of the loop of `thread_init`. `t_sched` is not initialised.
unfoldable pub thread_init_one : ℕ → Mem → Mem
unfolding clean_thread_data
thread_init_one i m =
    let m' = clean_thread_data (thread i) m in
    record m' {
      links = init_list_head (t_wait4me (thread i)) (
          init_list_head (t_msgq (thread i)) (list_add_tail (t_next (thread i)) thread_h m'.links));
    }

unfoldable pub thread_init_loop : (rounds i : ℕ) → Mem → Mem
thread_init_loop zero i m = m
thread_init_loop (suc n) i m = thread_init_loop n (i + 1) (thread_init_one i m)

unfoldable pub thread_init : Mem → Mem
thread_init m = thread_init_loop max_thread 0 m

unfoldable pub thread_alloc : Ptr → Mem → Mem × Ptr
thread_alloc proc m =
    let new_head = list_next thread_h m.links in
    if proc == null || new_head == null
    then (m, null)
    else (let new_thread = container_of new_head (t_next 0) in
        (
          record m {
            links = list_add_tail new_head (p_threads proc) (list_del new_head m.links);
            t_pcb = update m.t_pcb new_thread proc;
            t_status = update m.t_status new_thread t_status_ready;
          },
          new_thread,
        ))

unfoldable pub thread_free : Ptr → Mem → Mem × ℤ
unfolding clean_thread_data
thread_free oldthread m =
    if not (list_empty (t_msgq oldthread) m.links)
    then (m, negsuc 0)
    else (if not (list_empty (t_wait4me oldthread) m.links)
        then (m, negsuc 1)
        else (let m' = clean_thread_data oldthread m in
            (
              record m' {
                links =
                    list_add_tail (t_next oldthread) thread_h
                      (list_del (t_sched oldthread) (list_del (t_next oldthread) m'.links));
              },
              pos 0,
            )))

unfoldable pub thread_enqueue : (new queue : Ptr) → Mem → Mem
thread_enqueue new queue m = record m { links = list_add_tail (t_sched new) queue m.links }

unfoldable pub thread_qhead : Ptr → Mem → Ptr
unfolding qhead
thread_qhead queue m = qhead queue (t_sched 0) m

unfoldable pub thread_dequeue : Ptr → Mem → Mem × Ptr
unfolding dequeue
thread_dequeue queue m = dequeue queue (t_sched 0) m

unfoldable pub thread_outqueue : Ptr → Mem → Mem
thread_outqueue this m = record m { links = list_del (t_sched this) m.links }
