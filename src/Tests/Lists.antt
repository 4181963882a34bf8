-- ===== src/Tests/Lists.antt =====
-- The lists of a memory.
use os_unibo.Base.{update, [], ◌∷◌, ◌++◌, arith, erase, has-append}
use os_unibo.Listx.{list_add_tail, list_del}
use os_unibo.Listx.Queues.{Linked, list_add_tail-Linked, list_del-Linked}
use os_unibo.Mikabooq.{readyq, t_sched}
use os_unibo.Mikabooq.Layout.{ssi_thread}
use os_unibo.Boot.Valid.{boot_heads, boot_queues, boot-Valid}
use os_unibo.Tests.Blank.{blank, booted}
use os_unibo.Tests.Kernel.{ssi-IsLoose, ready, ready_queues, ready-Valid}

list_add_tail-Linked_example :
    Linked boot_heads
      (list_add_tail (t_sched ssi_thread) readyq booted.links)
      (update boot_queues readyq (boot_queues readyq ++ t_sched ssi_thread ∷ []))
list_add_tail-Linked_example =
    list_add_tail-Linked (boot-Valid blank).msgs.linked (t_sched ssi_thread) readyq
      (boot-Valid blank).readyq_is ssi-IsLoose

list_del-Linked_example :
    Linked boot_heads
      (list_del (t_sched ssi_thread) ready.links)
      (update ready_queues readyq (erase (t_sched ssi_thread) (ready_queues readyq)))
list_del-Linked_example =
    list_del-Linked ready-Valid.msgs.linked (t_sched ssi_thread) readyq ready-Valid.readyq_is (
      ground
        (arith, has-append (t_sched ssi_thread) (boot_queues readyq) (t_sched ssi_thread ∷ [])))
