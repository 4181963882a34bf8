-- ===== src/Tests/Msgs.antt =====
-- Messages.
use os_unibo.Base.{◌≡◌, ◌≢◌, pos, [], ◌∷◌, ◌++◌, some, arith, true}
use os_unibo.Mikabooq.{Mem, thread, message_h, t_msgq}
use os_unibo.Mikabooq.Layout.{IsReceiver}
use os_unibo.Mikabooq.Msgq.{msgq_add, msgq_add_head, msgq_get}
use os_unibo.Mikabooq.Msgq.Mailbox.{mailbox, receive}
use os_unibo.Mikabooq.Msgq.Add.{Delivered, msgq_add-Delivered}
use os_unibo.Mikabooq.Msgq.Get.{Gets, msgq_get-Gets}
use os_unibo.Boot.Heads.{queues, series_down}
use os_unibo.Boot.Valid.{boot_heads, boot_queues, boot-Msgs}
use os_unibo.Tests.Blank.{blank, booted}

first-IsReceiver : IsReceiver (thread 0)
first-IsReceiver = omega arith

some_free : boot_queues message_h ≢ []
unfolding queues series_down
some_free = λ e. cc

-- Thread 1 sends 7 to thread 0.
abbrev sent : Mem
sent = (msgq_add (thread 1) (thread 0) 7 booted).0

abbrev sent_first : Mem
sent_first = (msgq_add_head (thread 1) (thread 0) 7 booted).0

msgq_add-Delivered_example :
    let box = mailbox booted (boot_queues (t_msgq (thread 0))) in
    ((msgq_add (thread 1) (thread 0) 7 booted).1 ≡ pos 0)
    × Delivered boot_heads boot_queues booted (thread 0) (box ++ (thread 1, 7) ∷ []) sent
    × ((msgq_add_head (thread 1) (thread 0) 7 booted).1 ≡ pos 0)
    × Delivered boot_heads boot_queues booted (thread 0) ((thread 1, 7) ∷ box) sent_first
msgq_add-Delivered_example =
    msgq_add-Delivered (boot-Msgs blank) (thread 1) (thread 0) 7 (λ e. omega arith) first-IsReceiver
      some_free

abbrev delivered :
    Delivered boot_heads boot_queues booted
      (thread 0)
      (mailbox booted (boot_queues (t_msgq (thread 0))) ++ (thread 1, 7) ∷ [])
      sent
delivered =
    (msgq_add-Delivered (boot-Msgs blank) (thread 1) (thread 0) 7 (λ e. omega arith)
      first-IsReceiver some_free).1

msgq_get-Gets_example :
    Gets boot_heads delivered.q' sent
      (thread 0)
      (some (thread 1))
      true
      (receive (thread 1) (mailbox sent (delivered.q' (t_msgq (thread 0)))))
      (msgq_get (some (thread 1)) (thread 0) true sent)
msgq_get-Gets_example =
    msgq_get-Gets delivered.valid (thread 0) first-IsReceiver true (some (thread 1))
