-- ===== src/Ssi/Serve.antt =====
-- SSI/ssi.c: the dispatch of a request.
pub mod Laws
use os_unibo.Base.{ℕ, Ptr, null, Option, none, some, ◌>>=◌, ◌==◌, if◌then◌else◌}
use os_unibo.Kernel.{Kernel, Machine, word_at}
use os_unibo.Kernel.Clock.{wait_for_clock_s}
use os_unibo.Ssi.Create.{
  get_errno_s, create_process_s, create_thread_s, getcputime_s, get_processid_s, get_parentprocid_s,
  get_mythreadid_s,
}
use os_unibo.Ssi.Tree.{terminate_process_s, terminate_thread_s}
use os_unibo.Ssi.Manager.{Slot, pgm, tlb, sys, setmgr}
use os_unibo.Ssi.Io.{Served, replies, silent, panicked, do_io_s}

unfoldable pub req_field : Ptr → ℕ → Kernel → ℕ
req_field request i k = k.words (word_at request i)

-- A service that returns the value to send back.
unfoldable pub reply_with : Kernel × ℕ → Option Served
reply_with (k, reply) = some (replies reply k)

unfoldable pub end_silently : Option Kernel → Option Served
end_silently r = do k ← r; some (silent k)

-- `if (send_back) msgsend(applicant, reply)`
unfoldable pub send_back : Option (Kernel × Option Ptr) → Option Served
send_back none = none
send_back (some (k, none)) = some (silent k)
send_back (some (k, some reply)) = some (replies reply k)

-- The body of the loop of `ssi`, for the message `msg` of `applicant`. `terminal` is the address of
-- the command register of terminal 0. `none` means that a loop ran out of fuel.
unfoldable pub serve : Machine → (terminal applicant msg : Ptr) → Kernel → Option Served
unfolding req_field reply_with end_silently send_back
serve mach terminal applicant msg k =
    let tag = req_field msg 0 k in
    let arg = req_field msg 1 k in
    let state = mach.read_state k.words arg in
    if tag == 0
    then some (replies (get_errno_s applicant k.mem) k)
    else (if tag == 1
        then reply_with (create_process_s state applicant k)
        else (if tag == 2
            then reply_with (create_thread_s state applicant k)
            else (if tag == 3
                then end_silently (terminate_process_s applicant k)
                else (if tag == 4
                    then end_silently (terminate_thread_s applicant k)
                    else (if tag == 5
                        then send_back (setmgr pgm arg applicant k)
                        else (if tag == 6
                            then send_back (setmgr tlb arg applicant k)
                            else (if tag == 7
                                then send_back (setmgr sys arg applicant k)
                                else (if tag == 8
                                    then some (replies (getcputime_s applicant k.mem) k)
                                    else (if tag == 9
                                        then some (silent (wait_for_clock_s applicant k))
                                        else (if tag == 10
                                            then some (
                                                do_io_s terminal arg (req_field msg 2 k) applicant
                                                  k)
                                            else (if tag == 11
                                                then some (replies (get_processid_s arg k.mem) k)
                                                else (if tag == 12
                                                    then some (replies (get_mythreadid_s arg) k)
                                                    else (if tag == 13
                                                        then some (
                                                            replies (get_parentprocid_s arg k.mem)
                                                            k)
                                                        else some (panicked k))))))))))))))
