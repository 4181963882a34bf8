-- ===== src/Ssi/Io.antt =====
-- SSI/services/do_io.c. The address of the command register of terminal 0 belongs to the emulator
-- and is a parameter.
use os_unibo.Base.{ℕ, Ptr, null, update, ◌==◌, if◌then◌else◌}
use os_unibo.Kernel.{Kernel, add_word}

-- `TERMINAL_REQUESTER_INDEX`
abbrev pub terminal_requester_index : ℕ
terminal_requester_index = 4

-- What the SSI does once a request is served: it sends a reply to the applicant, sends none, or
-- panics.
pub data Served : Type 0 where
  replies : (reply : ℕ) → Kernel → Served
  silent : Kernel → Served
  panicked : Kernel → Served

unfoldable pub do_io_s : (terminal device : Ptr) (command : ℕ) (applicant : Ptr) → Kernel → Served
unfolding add_word
do_io_s terminal device command applicant k =
    let k' = record k {
      soft_block_count = add_word k.soft_block_count 1;
      words = update k.words terminal command;
    } in
    if device == terminal
    then (if k.soft_blocked_thread terminal_requester_index == null
        then silent (record k' {
          soft_blocked_thread = update k.soft_blocked_thread terminal_requester_index applicant;
        })
        else panicked k')
    else panicked k
