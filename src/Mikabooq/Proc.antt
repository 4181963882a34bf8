-- ===== src/Mikabooq/Proc.antt =====
-- mikabooq.c, processes.
pub mod Valid
pub mod Reparent
pub mod Alloc
pub mod Roundtrip
pub mod Delete
use os_unibo.Base.{
  ℕ, zero, suc, ◌+◌, ◌-◌, ℤ, pos, negsuc, Ptr, null, update, Bool, not, ◌||◌, ◌==◌, if◌then◌else◌,
}
use os_unibo.Listx.{init_list_head, list_add_tail, list_del, list_empty, list_next}
use os_unibo.Mikabooq.{
  Mem, max_proc, process, p_threads, p_children, p_siblings, t_next, container_of, qhead, dequeue,
}

unfoldable pub clean_mgr : Ptr → Mem → Mem
clean_mgr proc m = record m {
  pgm_mgr = update m.pgm_mgr proc null;
  tlb_mgr = update m.tlb_mgr proc null;
  sys_mgr = update m.sys_mgr proc null;
}

-- The body of the loop of `proc_init`.
unfoldable pub proc_init_one : ℕ → Mem → Mem
unfolding clean_mgr
proc_init_one i m = clean_mgr (process i) (record m {
  links = init_list_head (p_children (process i)) (
      init_list_head (p_threads (process i))
        (list_add_tail (p_siblings (process i)) (p_siblings (process 0)) m.links));
  p_parent = update m.p_parent (process i) null;
})

unfoldable pub proc_init_loop : (rounds i : ℕ) → Mem → Mem
proc_init_loop zero i m = m
proc_init_loop (suc n) i m = proc_init_loop n (i + 1) (proc_init_one i m)

unfoldable pub proc_init : Mem → Mem × Ptr
unfolding clean_mgr
proc_init m =
    let root = clean_mgr (process 0) (record m {
      links = init_list_head (p_siblings (process 0)) (
          init_list_head (p_children (process 0)) (init_list_head (p_threads (process 0)) m.links));
      p_parent = update m.p_parent (process 0) null;
    }) in
    (proc_init_loop (max_proc - 1) 1 root, process 0)

unfoldable pub proc_enqueue : (new queue : Ptr) → Mem → Mem
proc_enqueue new queue m = record m { links = list_add_tail (p_siblings new) queue m.links }

unfoldable pub proc_dequeue : Ptr → Mem → Mem × Ptr
unfolding dequeue
proc_dequeue queue m = dequeue queue (p_siblings 0) m

unfoldable pub proc_alloc : Ptr → Mem → Mem × Ptr
unfolding proc_enqueue
proc_alloc parent m =
    let new_space = list_next (p_siblings (process 0)) m.links in
    if new_space == null || parent == null
    then (m, null)
    else (let new_proc = container_of new_space (p_siblings 0) in
        (
          proc_enqueue new_proc (p_children parent) (record m {
            links = list_del new_space m.links;
            p_parent = update m.p_parent new_proc parent;
          }),
          new_proc,
        ))

unfoldable pub proc_delete : Ptr → Mem → Mem × ℤ
unfolding clean_mgr
proc_delete oldproc m =
    if m.p_parent oldproc == null
      || not (list_empty (p_children oldproc) m.links)
      || not (list_empty (p_threads oldproc) m.links)
    then (m, negsuc 0)
    else (
      clean_mgr oldproc (record m {
        links =
            list_add_tail (p_siblings oldproc) (p_siblings (process 0))
              (list_del (p_siblings oldproc) m.links);
        p_parent = update m.p_parent oldproc null;
      }),
      pos 0,
    )

unfoldable pub proc_firstchild : Ptr → Mem → Ptr
unfolding qhead
proc_firstchild proc m = qhead (p_children proc) (p_siblings 0) m

unfoldable pub proc_firstthread : Ptr → Mem → Ptr
unfolding qhead
proc_firstthread proc m = qhead (p_threads proc) (t_next 0) m
