-- ===== src/Ssi/Serve/Laws.antt =====
-- The requests of nucleus.h and the dispatch of SSI/ssi.c agree.
use os_unibo.Base.{ℕ, ◌+◌, ◌≡◌, refl, Ptr, Option, some, update, List, [], ◌∷◌, ◌<◌, arith}
use os_unibo.Kernel.{Kernel, Machine, word_at}
use os_unibo.Kernel.Clock.{wait_for_clock_s}
use os_unibo.Ssi.Create.{
  get_errno_s, create_process_s, create_thread_s, getcputime_s, get_processid_s, get_parentprocid_s,
  get_mythreadid_s,
}
use os_unibo.Ssi.Tree.{terminate_process_s, terminate_thread_s}
use os_unibo.Ssi.Manager.{pgm, tlb, sys, setmgr}
use os_unibo.Ssi.Io.{Served, replies, silent, do_io_s}
use os_unibo.Ssi.Request.{
  Request, get_errno, create_process, create_thread, terminate_process, terminate_thread,
  set_pgm_mgr, set_tlb_mgr, set_sys_mgr, get_cputime, wait_for_clock, do_io, get_processid,
  get_parentprocid, get_mythreadid, encode, write_words, Holds,
}
use os_unibo.Ssi.Serve.{req_field, reply_with, end_silently, send_back, serve}

-- What a request asks for. The thread that `get_mythreadid` gets is the word behind its struct.
unfoldable pub respond :
    Machine → (terminal applicant behind : Ptr) → Request → Kernel → Option Served
respond mach terminal applicant behind get_errno k = some (replies (get_errno_s applicant k.mem) k)
respond mach terminal applicant behind (create_process s) k =
    reply_with (create_process_s (mach.read_state k.words s) applicant k)
respond mach terminal applicant behind (create_thread s) k =
    reply_with (create_thread_s (mach.read_state k.words s) applicant k)
respond mach terminal applicant behind terminate_process k =
    end_silently (terminate_process_s applicant k)
respond mach terminal applicant behind terminate_thread k =
    end_silently (terminate_thread_s applicant k)
respond mach terminal applicant behind (set_pgm_mgr mgr) k = send_back (setmgr pgm mgr applicant k)
respond mach terminal applicant behind (set_tlb_mgr mgr) k = send_back (setmgr tlb mgr applicant k)
respond mach terminal applicant behind (set_sys_mgr mgr) k = send_back (setmgr sys mgr applicant k)
respond mach terminal applicant behind get_cputime k =
    some (replies (getcputime_s applicant k.mem) k)
respond mach terminal applicant behind wait_for_clock k =
    some (silent (wait_for_clock_s applicant k))
respond mach terminal applicant behind (do_io device command data1 data2) k =
    some (do_io_s terminal device command applicant k)
respond mach terminal applicant behind (get_processid t) k =
    some (replies (get_processid_s t k.mem) k)
respond mach terminal applicant behind get_mythreadid k = some (replies (get_mythreadid_s behind) k)
respond mach terminal applicant behind (get_parentprocid p) k =
    some (replies (get_parentprocid_s p k.mem) k)

-- Writing a struct stores its words.
write_words-below :
    (p i j : ℕ) (ws : List ℕ) (words : Ptr → ℕ)
    → j < i
    → write_words p i ws words (word_at p j) ≡ words (word_at p j)
unfolding write_words
write_words-below p i j [] words l = refl
write_words-below p i j (w ∷ ws) words l =
    ground (arith, write_words-below p (i + 1) j ws (update words (word_at p i) w))

pub write_words-Holds :
    (p i : ℕ) (ws : List ℕ) (words : Ptr → ℕ) → Holds (write_words p i ws words) p i ws
unfolding write_words
write_words-Holds p i [] words = tt
write_words-Holds p i (w ∷ ws) words = (
  ground (arith, write_words-below p (i + 1) i ws (update words (word_at p i) w)),
  write_words-Holds p (i + 1) ws (update words (word_at p i) w),
)

-- A request whose words stand at `msg` is served as its name says, whichever it is: the tags and
-- the places of the arguments that the wrappers write are those that the dispatch reads, except
-- that `get_mythreadid` answers with the word behind its struct.
pub serve-respond :
    (mach : Machine) (terminal applicant msg : Ptr) (r : Request) (k : Kernel)
    → Holds k.words msg 0 (encode r)
    → serve mach terminal applicant msg k
      ≡ respond mach terminal applicant (k.words (word_at msg 1)) r k
unfolding serve req_field respond encode
serve-respond mach terminal applicant msg get_errno k h = rw h.0 refl
serve-respond mach terminal applicant msg (create_process s) k h = rw (h.0, h.1.0) refl
serve-respond mach terminal applicant msg (create_thread s) k h = rw (h.0, h.1.0) refl
serve-respond mach terminal applicant msg terminate_process k h = rw h.0 refl
serve-respond mach terminal applicant msg terminate_thread k h = rw h.0 refl
serve-respond mach terminal applicant msg (set_pgm_mgr mgr) k h = rw (h.0, h.1.0) refl
serve-respond mach terminal applicant msg (set_tlb_mgr mgr) k h = rw (h.0, h.1.0) refl
serve-respond mach terminal applicant msg (set_sys_mgr mgr) k h = rw (h.0, h.1.0) refl
serve-respond mach terminal applicant msg get_cputime k h = rw h.0 refl
serve-respond mach terminal applicant msg wait_for_clock k h = rw h.0 refl
serve-respond mach terminal applicant msg (do_io device command data1 data2) k h =
    rw (h.0, h.1.0, h.1.1.0) refl
serve-respond mach terminal applicant msg (get_processid t) k h = rw (h.0, h.1.0) refl
serve-respond mach terminal applicant msg get_mythreadid k h = rw h.0 refl
serve-respond mach terminal applicant msg (get_parentprocid p) k h = rw (h.0, h.1.0) refl

-- The request that a wrapper writes at `req` is served as its name says, whichever it is, except
-- that `get_mythreadid` gets the word behind its struct.
pub serve-write_words :
    (mach : Machine) (terminal applicant req : Ptr) (r : Request) (k : Kernel)
    → let k' = record k { words = write_words req 0 (encode r) k.words } in
      serve mach terminal applicant req k'
      ≡ respond mach terminal applicant (k'.words (word_at req 1)) r k'
serve-write_words mach terminal applicant req r k =
    serve-respond mach terminal applicant req r
      (record k { words = write_words req 0 (encode r) k.words })
      (write_words-Holds req 0 (encode r) k.words)
