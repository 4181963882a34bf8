-- ===== src/Tests/Clock.antt =====
-- The clock.
use os_unibo.Base.{◌≡◌, some}
use os_unibo.Mikabooq.{Mem}
use os_unibo.Kernel.Clock.{accountant}
use os_unibo.Kernel.Clock.Account.{accountant-rounds}
use os_unibo.Tests.Blank.{blank}

abbrev busy : Mem
busy = record blank { run_time = λ _. 1501 }

accountant-rounds_example : accountant 336 busy ≡ some 2
accountant-rounds_example = accountant-rounds 336 busy
