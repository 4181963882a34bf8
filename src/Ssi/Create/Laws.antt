-- ===== src/Ssi/Create/Laws.antt =====
-- What the creation of a thread does.
use os_unibo.Base.{
  ◌≡◌, ◌≢◌, ◌⊎◌, inl, refl, Ptr, null, update, Bool, false, List, [], ◌∷◌, ◌++◌, ◌==◌, arith, ap,
}
use os_unibo.Mikabooq.{Cpu, Mem, readyq, thread_h, p_threads, t_next, t_sched, t_status_ready}
use os_unibo.Mikabooq.Layout.{IsProc, IsThread}
use os_unibo.Mikabooq.Proc.Valid.{IsLive}
use os_unibo.Mikabooq.Thread.{thread_alloc, thread_enqueue}
use os_unibo.Mikabooq.Thread.Alloc.{Allocated, thread_alloc-null, thread_alloc-Allocated}
use os_unibo.Mikabooq.Valid.{SameTables-fields, Valid, Valid-fields}
use os_unibo.Mikabooq.Tables.{thread-Valid}
use os_unibo.Mikabooq.Sched.{thread_enqueue-Valid}
use os_unibo.Listx.Queues.{IsLoose}
use os_unibo.Kernel.{Kernel, add_word}
use os_unibo.Ssi.Create.{create_thread_in}

-- The thread `t` of the process `proc` is new and the last of the ready queue, with `initial_state`
-- in its registers.
pub record Created (is_head : Ptr → Bool) (q : Ptr → List Ptr) (k : Kernel) (initial_state : Cpu)
    (proc : Ptr) (k' : Kernel) (t : Ptr) : Type 0 where
  pub is_thread : IsThread t
  pub was_free : k.mem.t_pcb t ≡ null
  pub q' : Ptr → List Ptr
  pub valid : Valid is_head q' k'.mem
  pub ready : q' readyq ≡ q readyq ++ t_sched t ∷ []
  pub threads : q' (p_threads proc) ≡ q (p_threads proc) ++ t_next t ∷ []
  pub free : q thread_h ≡ t_next t ∷ q' thread_h
  pub state : k'.mem.t_s t ≡ initial_state
  pub status : k'.mem.t_status t ≡ t_status_ready
  pub owner : k'.mem.t_pcb t ≡ proc
  pub counted : k'.thread_count ≡ add_word k.thread_count 1
  -- The rest is as it was.
  pub other_states : (x : Ptr) → x ≢ t → k'.mem.t_s x ≡ k.mem.t_s x
  pub parents : k'.mem.p_parent ≡ k.mem.p_parent
  pub pcbs : k'.mem.t_pcb ≡ update k.mem.t_pcb t proc
  pub statuses : k'.mem.t_status ≡ update k.mem.t_status t t_status_ready
  pub sys_mgrs : k'.mem.sys_mgr ≡ k.mem.sys_mgr
  pub others : (x : Ptr) → x ≢ readyq → x ≢ thread_h → x ≢ p_threads proc → q' x ≡ q x
  pub timeslice : k'.clock_per_timeslice ≡ k.clock_per_timeslice

module _ {is_head : Ptr → Bool} {q : Ptr → List Ptr} (k : Kernel) (v : Valid is_head q k.mem)
    (initial_state : Cpu) (proc : Ptr) where
  -- Without a process or a free descriptor no thread is created, and nothing changes.
  pub create_thread_in-null :
      (proc ≡ null) ⊎ (q thread_h ≡ []) → create_thread_in initial_state proc k ≡ (k, null)
  unfolding create_thread_in
  create_thread_in-null c = rw (thread_alloc-null v.threads proc c) refl

  module _ (ip : IsProc proc) (live : IsLive k.mem proc) (some_free : q thread_h ≢ [])
      (loose : (t : Ptr) → IsThread t → k.mem.t_pcb t ≡ null → IsLoose is_head q (t_sched t)) where
    abbrev allocated_mem : Mem
    allocated_mem = (thread_alloc proc k.mem).0

    abbrev new_thread : Ptr
    new_thread = (thread_alloc proc k.mem).1

    allocated : Allocated is_head q k.mem proc allocated_mem new_thread
    allocated = thread_alloc-Allocated v.threads proc ip live some_free

    -- The allocation moves an entry that is no scheduling field.
    still-IsLoose : IsLoose is_head allocated.q' (t_sched new_thread)
    still-IsLoose =
        let was = loose new_thread allocated.is_thread allocated.was_free in
        record {
          not_head = was.not_head;
          not_in = λ h ih. ground (
            arith,
            was.not_in h ih,
            allocated.others h,
            allocated.valid.free_entry (t_sched new_thread),
            allocated.valid.thread_entry proc (t_sched new_thread) ip,
            allocated.is_thread,
          );
        }

    loaded :
        Valid is_head allocated.q'
          (record allocated_mem { t_s = update allocated_mem.t_s new_thread initial_state })
    loaded =
        Valid-fields _ (thread-Valid v allocated_mem proc new_thread ip allocated)
          (SameTables-fields refl refl refl refl) refl

    ready_kept : allocated.q' readyq ≡ q readyq
    ready_kept = allocated.others readyq (λ e. omega arith) (λ e. ground (arith, ip))

    -- Given a live process, a free descriptor, and that no unused thread stands in a scheduling
    -- queue, a thread of that process is created, ready to run from the state that was given.
    pub create_thread_in-Created :
        let (k', t) = create_thread_in initial_state proc k in
        Created is_head q k initial_state proc k' t
    unfolding create_thread_in
    create_thread_in-Created =
        let real : (new_thread == null) ≡ false = ground (arith, allocated.is_thread) in
        rw real (record {
          is_thread = allocated.is_thread;
          was_free = allocated.was_free;
          q' = update allocated.q' readyq (allocated.q' readyq ++ t_sched new_thread ∷ []);
          valid =
              thread_enqueue-Valid loaded readyq
                (record { is = v.readyq_is; place = inl (omega arith, omega arith) }) new_thread
                (record {
                  aligned = allocated.is_thread.aligned;
                  from = allocated.is_thread.from;
                  below = omega (arith, allocated.is_thread);
                })
                still-IsLoose;
          ready = ap (λ xs. xs ++ t_sched new_thread ∷ []) ready_kept;
          threads = ground (arith, allocated.threads, ip);
          free = ground (arith, allocated.free);
          state = unfold thread_enqueue in ground arith;
          status = unfold thread_enqueue in ground (arith, allocated.status);
          owner = unfold thread_enqueue in ground (arith, allocated.pcb);
          counted = refl;
          other_states = λ x ne. unfold thread_enqueue in ground (arith, allocated.states);
          parents = unfold thread_enqueue in allocated.parents;
          pcbs = unfold thread_enqueue in allocated.pcb;
          statuses = unfold thread_enqueue in allocated.status;
          sys_mgrs = unfold thread_enqueue in allocated.sys_mgrs;
          others = λ x nr nf np. ground (arith, allocated.others x);
          timeslice = refl;
        })
