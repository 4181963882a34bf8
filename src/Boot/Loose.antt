-- ===== src/Boot/Loose.antt =====
-- After the start no thread stands in a scheduling queue.
use os_unibo.Base.{inl, Ptr, arith, true}
use os_unibo.Listx.Queues.{IsLoose}
use os_unibo.Mikabooq.{t_sched}
use os_unibo.Mikabooq.Layout.{IsReceiver}
use os_unibo.Boot.Heads.{heads, in_series-false, fresh}
use os_unibo.Boot.Valid.{boot_heads, boot_queues}

pub sched-IsLoose : (t : Ptr) → IsReceiver t → IsLoose boot_heads boot_queues (t_sched t)
unfolding heads
sched-IsLoose t i =
    fresh true 20 31 19 30 40 (t_sched t)
      (ground (
        arith,
        i,
        in_series-false 17 20 (t_sched t),
        in_series-false 18 20 (t_sched t),
        in_series-false 342 31 (t_sched t),
        in_series-false 343 31 (t_sched t),
      ))
      (in_series-false 35 19 (t_sched t) (inl (λ e. omega (arith, i))))
      (in_series-false 340 30 (t_sched t) (inl (λ e. omega (arith, i))))
      (in_series-false 840 40 (t_sched t) (inl (λ e. omega (arith, i))))
