-- ===== src/Tests/Reached.antt =====
-- The thread of the tests asks the SSI for a process.
use os_unibo.Listx.{list_empty}
use os_unibo.Mikabooq.{message_h}
use os_unibo.Base.{null, ◌⊎◌, true, false, ℕ, ◌≡◌, some, arith}
use os_unibo.Boot.Valid.{boot_heads}
use os_unibo.Mikabooq.Layout.{ssi_thread}
use os_unibo.Kernel.Message.{send, send_success, send_failure}
use os_unibo.Kernel.{Kernel}
use os_unibo.Start.Laws.{Launched, main-Launched}
use os_unibo.Ssi.Io.{Served}
use os_unibo.Ssi.Request.{create_process, encode, write_words, Holds}
use os_unibo.Ssi.Serve.{serve}
use os_unibo.Ssi.Serve.Laws.{write_words-Holds}
use os_unibo.Ssi.Sound.{Steady}
use os_unibo.Ssi.Sound.Serve.{IsFair, ends, after, has_panicked, panics_for}
use os_unibo.Ssi.Sound.Reached.{Reached, here, written, Reached-Steady, Reached-served}
use os_unibo.Start.{main}
use os_unibo.Tests.Kernel.{quiet}
use os_unibo.Tests.Ssi.{machine}
use os_unibo.Tests.Start.{image}

launched : Launched image (main image quiet).0 (main image quiet).1
launched = main-Launched image quiet

abbrev start : Kernel
start = launched.final

-- The request, at address 3000, for a process whose first state is at 3100.
abbrev asked : Kernel
asked = record start { words = write_words 3000 0 (encode (create_process 3100)) start.words }

asked-Reached : Reached machine 100 start asked
asked-Reached = written start (write_words 3000 0 (encode (create_process 3100)) start.words) here

asked-Holds : Holds asked.words 3000 0 (encode (create_process 3100))
asked-Holds = write_words-Holds 3000 0 (encode (create_process 3100)) start.words

asked-IsFair : IsFair asked.mem launched.test (create_process 3100)
unfolding ends
asked-IsFair = record {
  is_thread = launched.is_thread;
  in_use = λ e. omega (arith, launched.owner, e);
  no_clock = λ e. cc e;
  manager = λ mgr e. cc e;
  spared = λ e. cc e;
}

Reached-served_example :
    (result : Served) × (serve machine 100 launched.test 3000 asked ≡ some result)
    × (has_panicked result ≡ false)
    × Reached machine 100 start (after result)
    × Steady boot_heads (after result)
    × (k'' : Kernel) × (code : ℕ) × (send launched.test ssi_thread 7 (after result)
        ≡ some (k'', code))
    × ((code ≡ send_success)
        ⊎ ((code ≡ send_failure)
            × (((after result).mem.t_pcb launched.test ≡ null)
                ⊎ (list_empty message_h (after result).mem.links ≡ true))))
    × Reached machine 100 start k''
    × Steady boot_heads k''
unfolding panics_for
Reached-served_example =
    Reached-served launched.steady asked launched.test 3000 (create_process 3100) 7 asked-Reached
      asked-Holds asked-IsFair

-- The state after that request and its reply.
answered :
    (result : Served) × (serve machine 100 launched.test 3000 asked ≡ some result)
    × (has_panicked result ≡ false)
    × Reached machine 100 start (after result)
    × Steady boot_heads (after result)
    × (k'' : Kernel) × (code : ℕ) × (send launched.test ssi_thread 7 (after result)
        ≡ some (k'', code))
    × ((code ≡ send_success)
        ⊎ ((code ≡ send_failure)
            × (((after result).mem.t_pcb launched.test ≡ null)
                ⊎ (list_empty message_h (after result).mem.links ≡ true))))
    × Reached machine 100 start k''
    × Steady boot_heads k''
unfolding panics_for
answered =
    Reached-served launched.steady asked launched.test 3000 (create_process 3100) 7 asked-Reached
      asked-Holds asked-IsFair

abbrev replied : Kernel
replied = answered.5

Reached-Steady_example : Steady boot_heads replied
Reached-Steady_example = Reached-Steady launched.steady replied answered.9
