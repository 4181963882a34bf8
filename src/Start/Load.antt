-- ===== src/Start/Load.antt =====
-- The SSI and the thread of the tests are loaded into the tables that the start leaves.
use os_unibo.Base.{
  ◌*◌, ◌%◌, ◌≡◌, ◌≢◌, inl, refl, Ptr, null, update, false, List, [], ◌∷◌, ◌++◌, ◌==◌, arith,
  has-append,
}
use os_unibo.Mikabooq.{Cpu, readyq, thread_h, t_sched}
use os_unibo.Mikabooq.Layout.{root, ssi_thread}
use os_unibo.Mikabooq.Thread.{thread_alloc, thread_enqueue}
use os_unibo.Mikabooq.Thread.Alloc.{thread_alloc-Allocated}
use os_unibo.Mikabooq.Valid.{Valid, Valid-fields, SameTables-fields}
use os_unibo.Mikabooq.Sched.{thread_enqueue-Valid}
use os_unibo.Boot.{boot, init_descriptors}
use os_unibo.Boot.Heads.{queues, series}
use os_unibo.Boot.Valid.{boot_heads, boot_queues, boot-Valid}
use os_unibo.Boot.Loose.{sched-IsLoose}
use os_unibo.Kernel.{Kernel, word_size, sub_word}
use os_unibo.Kernel.Scheduler.{state_init, init_and_load, frame_size}
use os_unibo.Ssi.Create.{create_thread_in}
use os_unibo.Ssi.Create.Laws.{Created}
use os_unibo.Start.{
  Image, closed_status, time_init, ssi_thread_init, p2test_init, load_readyq, static_init,
}
use os_unibo.Ssi.Settled.{Settled, Settled-ssi}
use os_unibo.Ssi.Create.Placed.{create_thread_in-Settled}
use os_unibo.Boot.Sound.{boot-Settled}

module _ (im : Image) (k : Kernel) where
  unfoldable pub described : Kernel
  unfolding static_init time_init
  described = let k' = static_init k in time_init im (record k' { mem = init_descriptors k'.mem })

  unfoldable pub initialised : Kernel
  unfolding described ssi_thread_init
  initialised = (ssi_thread_init described).0

  initialised-Valid : Valid boot_heads boot_queues initialised.mem
  unfolding initialised described ssi_thread_init static_init time_init boot
  initialised-Valid = boot-Valid k.mem

  -- The SSI is loaded.
  unfoldable pub with_ssi : Kernel
  unfolding init_and_load
  with_ssi =
      (init_and_load (im.stst 4) im.ram_top 1 ssi_thread im.ssi_at closed_status initialised).0

  unfoldable pub ssi_queues : Ptr → List Ptr
  ssi_queues = update boot_queues readyq (boot_queues readyq ++ t_sched ssi_thread ∷ [])

  with_ssi-Valid : Valid boot_heads ssi_queues with_ssi.mem
  unfolding with_ssi ssi_queues init_and_load state_init
  with_ssi-Valid =
      thread_enqueue-Valid
        (Valid-fields _ initialised-Valid (SameTables-fields refl refl refl refl) refl) readyq
        (record { is = initialised-Valid.readyq_is; place = inl (omega arith, omega arith) })
        ssi_thread (omega arith) (sched-IsLoose ssi_thread (omega arith))

  pub ssi_ready : ssi_queues readyq ≡ t_sched ssi_thread ∷ []
  unfolding ssi_queues queues
  ssi_ready = ground arith

  root_free : ssi_queues thread_h ≢ []
  unfolding ssi_queues queues series
  root_free = λ e. cc

  -- The state that the thread of the tests starts from.
  unfoldable pub test_state : Cpu
  unfolding sub_word
  test_state = record (im.stst 5) {
    pc = im.test_at;
    sp = sub_word im.ram_top ((2 * frame_size) % word_size);
    cpsr = closed_status;
  }

  with_ssi-Settled : Settled boot_heads ssi_queues with_ssi.mem
  unfolding with_ssi ssi_queues initialised described init_and_load state_init static_init time_init
      ssi_thread_init boot thread_enqueue
  with_ssi-Settled =
      Settled-ssi initialised-Valid (boot-Settled k.mem) refl refl refl (λ h ne. ground arith)
        (λ a ne. ground (arith, has-append a (boot_queues readyq) (t_sched ssi_thread ∷ [])))

  unfoldable pub with_test : Kernel × Ptr
  unfolding test_state create_thread_in
  with_test = create_thread_in test_state root with_ssi

  pub test_created :
      (new : Created boot_heads ssi_queues with_ssi test_state root with_test.0 with_test.1)
      × Settled boot_heads new.q' with_test.0.mem
  unfolding with_test
  test_created =
      create_thread_in-Settled with_ssi with_ssi-Valid with_ssi-Settled test_state root
        (omega arith) (inl refl) root_free

  p2test_init-eq :
      (k' : Kernel)
      → (thread_alloc root k'.mem).1 ≢ null
      → (p2test_init im 2 root k').0 ≡ (create_thread_in test_state root k').0
  unfolding p2test_init init_and_load state_init create_thread_in test_state
  p2test_init-eq k' ne =
      let real : ((thread_alloc root k'.mem).1 == null) ≡ false = ground arith in rw real refl

  pub load_readyq-eq : load_readyq im root described ≡ with_test.0
  unfolding load_readyq with_test with_ssi initialised init_and_load
  load_readyq-eq = p2test_init-eq with_ssi (
      ground (
        arith,
        thread_alloc-Allocated with_ssi-Valid.threads root (omega arith) (inl refl) root_free,
      ))
