-- ===== src/Start/Laws.antt =====
-- What runs when `main` is over.
use os_unibo.Base.{ℕ, ◌*◌, ◌%◌, ◌≡◌, ◌≢◌, inl, refl, ◌∙◌, ap, Ptr, update, List, [], ◌∷◌, arith}
use os_unibo.Mikabooq.{Cpu, Mem, readyq, t_sched}
use os_unibo.Mikabooq.Layout.{root, ssi_thread, IsThread}
use os_unibo.Mikabooq.Thread.{thread_enqueue}
use os_unibo.Mikabooq.Valid.{Valid}
use os_unibo.Boot.{boot}
use os_unibo.Boot.Valid.{boot_heads}
use os_unibo.Kernel.{Kernel, Outcome, loads, word_size, add_word, sub_word}
use os_unibo.Kernel.Scheduler.{state_init, init_and_load, scheduler, frame_size}
use os_unibo.Kernel.Scheduler.Laws.{Runs, scheduler-Runs}
use os_unibo.Ssi.Settled.{Settled-ssi}
use os_unibo.Mikabooq.Thread.Used.{used, used-none, used-grows}
use os_unibo.Boot.Valid.{ownerless}
use os_unibo.Mikabooq.{max_thread}
use os_unibo.Base.{suc}
use os_unibo.Ssi.Sound.{Sound, Steady}
use os_unibo.Ssi.Sound.Create.{Shrinks-Sound}
use os_unibo.Boot.Sound.{boot-Sound}
use os_unibo.Ssi.Create.Laws.{Created}
use os_unibo.Start.{
  Image, NewAreas, closed_status, states_init, time_init, ssi_thread_init, static_init, main,
}
use os_unibo.Start.Load.{
  described, initialised, with_ssi, ssi_queues, test_state, with_test, test_created, ssi_ready,
  load_readyq-eq,
}

-- A state in which a function of the kernel starts: in system mode with the interrupts disabled.
pub record StartsAt (cpu : Cpu) (function stack : ℕ) : Type 0 where
  pub pc : cpu.pc ≡ function
  pub sp : cpu.sp ≡ stack
  pub cpsr : cpu.cpsr ≡ 0xdf

-- The SSI runs on the first stack below the end of the memory, the thread of the tests is ready
-- on the second, and the handlers stand where the machine looks for them.
pub record Launched (im : Image) (areas : NewAreas) (r : Outcome) : Type 0 where
  pub cpu : Cpu
  pub final : Kernel
  pub outcome : r ≡ loads cpu final
  pub runs : StartsAt cpu im.ssi_at (sub_word im.ram_top 4096)
  pub current : final.current_thread ≡ ssi_thread
  pub slice : final.timer ≡ (im.time_scale * 5000) % word_size
  pub count : final.thread_count ≡ 2
  pub queues' : Ptr → List Ptr
  pub valid : Valid boot_heads queues' final.mem
  pub test : Ptr
  pub is_thread : IsThread test
  pub ready : queues' readyq ≡ t_sched test ∷ []
  pub owner : final.mem.t_pcb test ≡ root
  pub test_starts : StartsAt (final.mem.t_s test) im.test_at (sub_word im.ram_top 8192)
  pub interrupts : StartsAt areas.int_new im.interrupt_at im.ram_top
  pub tlb_traps : StartsAt areas.tlb_new im.tlbtrap_at im.ram_top
  pub program_traps : StartsAt areas.pgmtrap_new im.pgmtrap_at im.ram_top
  pub syscalls : StartsAt areas.sysbk_new im.syscall_at im.ram_top
  pub steady : Steady boot_heads final

module _ (im : Image) (k : Kernel) where
  abbrev new :
      Created boot_heads
        (ssi_queues im k)
        (with_ssi im k)
        (test_state im k)
        root
        (with_test im k).0
        (with_test im k).1
  new = (test_created im k).0

  ssi-ne-test : ssi_thread ≢ (with_test im k).1
  ssi-ne-test = ground (arith, new.is_thread)

  ssi_state : (with_test im k).0.mem.t_s ssi_thread ≡ record (im.stst 4) {
    pc = im.ssi_at;
    sp = sub_word im.ram_top frame_size;
    cpsr = closed_status;
  }
  unfolding with_ssi init_and_load state_init sub_word thread_enqueue
  ssi_state = new.other_states ssi_thread ssi-ne-test ∙ ground arith

  ready_two : new.q' readyq ≡ t_sched ssi_thread ∷ t_sched (with_test im k).1 ∷ []
  ready_two = ground (arith, new.ready, (ssi_ready im k))

  runs :
      Runs boot_heads new.q'
        (with_test im k).0
        (t_sched ssi_thread)
        (t_sched (with_test im k).1 ∷ [])
        (scheduler (with_test im k).0)
  runs =
      scheduler-Runs (with_test im k).0 new.valid (t_sched ssi_thread)
        (t_sched (with_test im k).1 ∷ []) ready_two

  loaded-Sound : Sound boot_heads (with_test im k).0.mem
  unfolding with_test with_ssi initialised described init_and_load state_init static_init time_init
      ssi_thread_init boot thread_enqueue
  loaded-Sound =
      Shrinks-Sound (boot-Sound k.mem) new.q' (with_test im k).0.mem
        (λ c. inl (ap (λ f. f c) new.parents)) new.valid (test_created im k).1

  vector : NewAreas
  unfolding states_init
  vector = states_init im

  counted : (with_test im k).0.thread_count ≡ 2
  unfolding with_ssi init_and_load initialised described static_init time_init ssi_thread_init
      add_word
  counted = ground (arith, new.counted)

  timeslice : (with_test im k).0.clock_per_timeslice ≡ (im.time_scale * 5000) % word_size
  unfolding with_ssi init_and_load initialised described static_init time_init ssi_thread_init
  timeslice = new.timeslice

  abbrev running : Mem
  running = record ((with_test im k).0.mem) { links = runs.links' }

  -- The scheduler takes the SSI out of the ready queue.
  final-Sound : Sound boot_heads running
  final-Sound =
      Shrinks-Sound loaded-Sound (update new.q' readyq (t_sched (with_test im k).1 ∷ [])) running
        (λ c. inl refl) runs.valid
        (Settled-ssi new.valid (test_created im k).1 refl refl refl (λ h ne. ground arith)
          (λ a ne. ground (arith, ready_two)))

  none_used : used (with_ssi im k).mem.t_pcb ≡ 0
  unfolding with_ssi initialised described init_and_load state_init static_init time_init
      ssi_thread_init boot thread_enqueue
  none_used = used-none max_thread (boot k.mem).t_pcb (λ t it. ownerless k.mem t it) (omega arith)

  final-Counted : (with_test im k).0.thread_count ≡ suc (used (with_test im k).0.mem.t_pcb)
  final-Counted = omega (
    arith,
    counted,
    none_used,
    used-grows (with_ssi im k).mem.t_pcb (with_test im k).1 root new.is_thread new.was_free
        (λ z. omega (arith, z)),
    ap used new.pcbs,
  )

  -- Whatever the memory holds when the machine starts, `main` sets up the four handlers and loads
  -- the SSI and the thread of the tests, and the SSI runs first, for a full time slice, in a sound
  -- state in which `thread_count` is right.
  pub main-Launched : Launched im (main im k).0 (main im k).1
  unfolding main closed_status states_init described test_state sub_word
  main-Launched = rw (load_readyq-eq im k) (record {
    cpu = (with_test im k).0.mem.t_s ssi_thread;
    final = record (with_test im k).0 {
      mem = record ((with_test im k).0.mem) { links = runs.links' };
      current_thread = ssi_thread;
      timer = (with_test im k).0.clock_per_timeslice;
    };
    outcome = runs.outcome;
    runs = rw ssi_state (record { pc = refl; sp = refl; cpsr = refl });
    current = refl;
    slice = timeslice;
    count = counted;
    queues' = update new.q' readyq (t_sched (with_test im k).1 ∷ []);
    valid = runs.valid;
    test = (with_test im k).1;
    is_thread = new.is_thread;
    ready = ground arith;
    owner = new.owner;
    test_starts = rw new.state (record { pc = refl; sp = refl; cpsr = refl });
    interrupts = record { pc = refl; sp = refl; cpsr = refl };
    tlb_traps = record { pc = refl; sp = refl; cpsr = refl };
    program_traps = record { pc = refl; sp = refl; cpsr = refl };
    syscalls = record { pc = refl; sp = refl; cpsr = refl };
    steady = record { sound = final-Sound; counted = final-Counted };
  })
