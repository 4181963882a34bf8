-- ===== src/Tests/Ssi.antt =====
-- The services.
use os_unibo.Base.{
  ◌≡◌, ◌≢◌, inl, refl, Ptr, null, List, [], ◌∷◌, some, arith, ◌++◌, ◌∙◌, update, has-append,
}
use os_unibo.Listx.Queues.{IsLoose}
use os_unibo.Mikabooq.{Mem, thread, thread_h, t_sched, t_msgq, t_wait4me, readyq}
use os_unibo.Mikabooq.Layout.{root, proc_h, IsProc, IsThread}
use os_unibo.Mikabooq.Thread.{thread_alloc, thread_enqueue, thread_free}
use os_unibo.Mikabooq.Thread.Free.{Freed}
use os_unibo.Mikabooq.Sched.{thread_enqueue-Valid}
use os_unibo.Mikabooq.Thread.Alloc.{Allocated as NewThread, thread_alloc-Allocated}
use os_unibo.Mikabooq.Proc.Alloc.{Allocated as NewProc}
use os_unibo.Mikabooq.Valid.{Valid}
use os_unibo.Mikabooq.Tables.{thread-Valid}
use os_unibo.Boot.Heads.{queues, series}
use os_unibo.Boot.Loose.{sched-IsLoose}
use os_unibo.Boot.Valid.{boot_heads, boot_queues, boot-Valid, ownerless}
use os_unibo.Kernel.{Kernel, Machine, sub_word}
use os_unibo.Ssi.Create.{create_thread_in, create_process_s}
use os_unibo.Ssi.Create.Laws.{Created}
use os_unibo.Ssi.Create.Placed.{create_thread_in-Settled}
use os_unibo.Ssi.Settled.{Settled}
use os_unibo.Boot.Sound.{boot-Settled}
use os_unibo.Ssi.Create.Process.{new_mem, new_process, create_process_s-Created}
use os_unibo.Ssi.Terminate.{terminate_one}
use os_unibo.Ssi.Terminate.Drop.{Dropped}
use os_unibo.Ssi.Terminate.Resume.{AllWait, Woken}
use os_unibo.Ssi.Terminate.Laws.{terminate_one-Freed}
use os_unibo.Ssi.Request.{do_io, encode, write_words}
use os_unibo.Ssi.Serve.{serve}
use os_unibo.Ssi.Serve.Laws.{respond, serve-write_words}
use os_unibo.Tests.Blank.{zero_cpu, blank, booted}
use os_unibo.Tests.Kernel.{with_mem, quiet}

root-IsProc : IsProc root
root-IsProc = omega arith

free_thread : boot_queues thread_h ≢ []
unfolding queues series
free_thread = λ e. cc

pub all-IsLoose :
    (t : Ptr) → IsThread t → booted.t_pcb t ≡ null → IsLoose boot_heads boot_queues (t_sched t)
all-IsLoose t i e =
    sched-IsLoose t (record { aligned = i.aligned; from = i.from; below = omega (arith, i) })

create_thread_in-Settled_example :
    let (k', t) = create_thread_in zero_cpu root quiet in
    (new : Created boot_heads boot_queues quiet zero_cpu root k' t) × Settled boot_heads new.q'
      k'.mem
create_thread_in-Settled_example =
    create_thread_in-Settled quiet (boot-Valid blank) (boot-Settled blank) zero_cpu root root-IsProc
      (inl refl) free_thread

-- The root has a thread.
abbrev inhabited : Mem
inhabited = (thread_alloc root booted).0

abbrev first_thread : Ptr
first_thread = (thread_alloc root booted).1

abbrev new_thread : NewThread boot_heads boot_queues booted root inhabited first_thread
new_thread =
    thread_alloc-Allocated (boot-Valid blank).threads root root-IsProc (inl refl) free_thread

inhabited-Valid : Valid boot_heads new_thread.q' inhabited
inhabited-Valid = thread-Valid (boot-Valid blank) inhabited root first_thread root-IsProc new_thread

its_process : inhabited.t_pcb first_thread ≡ root
its_process = ground (arith, new_thread.pcb)

free_process : new_thread.q' proc_h ≢ []
unfolding queues series
free_process = λ e. cc (new_thread.others proc_h (λ z. omega arith) (λ z. omega arith), e)

another_thread : new_thread.q' thread_h ≢ []
unfolding queues series
another_thread = λ e. cc (new_thread.free, e)

all-IsLoose' : (t : Ptr) → IsThread t → IsLoose boot_heads new_thread.q' (t_sched t)
all-IsLoose' t i =
    let was = all-IsLoose t i (ownerless blank t i) in
    record {
      not_head = was.not_head;
      not_in = λ h ih. ground (
        arith,
        was.not_in h ih,
        new_thread.others h,
        new_thread.valid.free_entry (t_sched t),
        new_thread.valid.thread_entry root (t_sched t) root-IsProc,
        i,
      );
    }

create_process_s-Created_example :
    (new : NewProc boot_heads new_thread.q' inhabited
      (inhabited.t_pcb first_thread)
      (new_mem (with_mem inhabited) first_thread)
      (new_process (with_mem inhabited) first_thread))
    × (let (k', t) = create_process_s zero_cpu first_thread (with_mem inhabited) in
        Created boot_heads new.q'
          (with_mem (new_mem (with_mem inhabited) first_thread))
          zero_cpu
          (new_process (with_mem inhabited) first_thread)
          k'
          t)
create_process_s-Created_example =
    create_process_s-Created (with_mem inhabited) inhabited-Valid zero_cpu first_thread
      (ground (arith, its_process)) (inl its_process) free_process another_thread
      (λ t i e. all-IsLoose' t i)

abbrev pub machine : Machine
machine = record {
  msgsend = λ t msg k. k;
  msgrecv = λ t reply k. k;
  frame = 3000;
  read_state = λ words p. zero_cpu;
}

serve-write_words_example :
    let k' = record quiet { words = write_words 3000 0 (encode (do_io 100 65 0 0)) (λ _. 0) } in
    serve machine 100 (thread 0) 3000 k'
    ≡ respond machine 100 (thread 0) (k'.words 3004) (do_io 100 65 0 0) k'
serve-write_words_example = serve-write_words machine 100 (thread 0) 3000 (do_io 100 65 0 0) quiet

-- The thread of the root, ready to run, is freed.
abbrev running : Mem
running = thread_enqueue first_thread readyq inhabited

abbrev running_queues : Ptr → List Ptr
running_queues = update new_thread.q' readyq (new_thread.q' readyq ++ t_sched first_thread ∷ [])

running-Valid : Valid boot_heads running_queues running
running-Valid =
    thread_enqueue-Valid inhabited-Valid readyq
      (record { is = inhabited-Valid.readyq_is; place = inl (omega arith, omega arith) })
      first_thread (omega (arith, new_thread.is_thread))
      (all-IsLoose' first_thread new_thread.is_thread)

first_empty :
    (new_thread.q' (t_msgq first_thread) ≡ []) × (new_thread.q' (t_wait4me first_thread) ≡ [])
first_empty = (
  new_thread.others (t_msgq first_thread) (λ e. omega (arith, new_thread.is_thread))
        (λ e. omega (arith, new_thread.is_thread))
      ∙ (boot-Valid blank).threads.no_msgs first_thread new_thread.is_thread new_thread.was_free,
  new_thread.others (t_wait4me first_thread) (λ e. omega (arith, new_thread.is_thread))
        (λ e. omega (arith, new_thread.is_thread))
      ∙ (boot-Valid blank).threads.not_awaited first_thread new_thread.is_thread
          new_thread.was_free,
)

abbrev ending : Kernel
ending = with_mem running

nobody_waits : AllWait running_queues ending first_thread
nobody_waits a i = absurd (ground (arith, first_empty, new_thread.is_thread))

terminate_one-Freed_example :
    (m1 : Mem) × (dropped : Dropped boot_heads running_queues running first_thread m1)
    × (k2 : Kernel) × (woken : Woken boot_heads dropped.q' (with_mem m1) first_thread k2)
    × (freed : Freed boot_heads woken.q' k2.mem first_thread readyq
        (thread_free first_thread k2.mem).0)
    × Valid boot_heads freed.q' (thread_free first_thread k2.mem).0
    × (terminate_one first_thread ending
        ≡ some
            (record k2 { mem = (thread_free first_thread k2.mem).0; thread_count = sub_word 1 1 }))
terminate_one-Freed_example =
    terminate_one-Freed ending running-Valid first_thread new_thread.is_thread
      (unfold thread_enqueue in (λ e. ground (arith, its_process, e))) nobody_waits readyq
      (record { is = running-Valid.readyq_is; place = inl (omega arith, omega arith) })
      (λ e. omega (arith, new_thread.is_thread))
      (ground (
        arith,
        has-append (t_sched first_thread) (new_thread.q' readyq) (t_sched first_thread ∷ []),
      ))
