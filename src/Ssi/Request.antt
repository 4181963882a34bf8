-- ===== src/Ssi/Request.antt =====
-- nucleus.h: the requests that the wrappers send to the SSI, and the words of their structs.
use os_unibo.Base.{ℕ, ◌+◌, Ptr, update, List, [], ◌∷◌, ◌≡◌}
use os_unibo.Mikabooq.Layout.{ssi_thread}
use os_unibo.Kernel.{Kernel, Machine, word_at}

pub data Request : Type 0 where
  get_errno : Request
  create_process : (s : Ptr) → Request
  create_thread : (s : Ptr) → Request
  terminate_process : Request
  terminate_thread : Request
  set_pgm_mgr : (mgr : Ptr) → Request
  set_tlb_mgr : (mgr : Ptr) → Request
  set_sys_mgr : (mgr : Ptr) → Request
  get_cputime : Request
  wait_for_clock : Request
  do_io : (device : Ptr) (command data1 data2 : ℕ) → Request
  get_processid : (thread : Ptr) → Request
  get_parentprocid : (proc : Ptr) → Request
  get_mythreadid : Request

-- The words of `req`, the tag first.
unfoldable pub encode : Request → List ℕ
encode get_errno = 0 ∷ []
encode (create_process s) = 1 ∷ s ∷ []
encode (create_thread s) = 2 ∷ s ∷ []
encode terminate_process = 3 ∷ []
encode terminate_thread = 4 ∷ []
encode (set_pgm_mgr mgr) = 5 ∷ mgr ∷ []
encode (set_tlb_mgr mgr) = 6 ∷ mgr ∷ []
encode (set_sys_mgr mgr) = 7 ∷ mgr ∷ []
encode get_cputime = 8 ∷ []
encode wait_for_clock = 9 ∷ []
encode (do_io device command data1 data2) = 10 ∷ device ∷ command ∷ data1 ∷ data2 ∷ []
encode (get_processid thread) = 11 ∷ thread ∷ []
encode get_mythreadid = 12 ∷ []
encode (get_parentprocid proc) = 13 ∷ proc ∷ []

-- The struct at `p`, from its word `i` on.
unfoldable pub write_words : Ptr → ℕ → List ℕ → (Ptr → ℕ) → Ptr → ℕ
write_words p i [] words = words
write_words p i (w ∷ ws) words = write_words p (i + 1) ws (update words (word_at p i) w)

-- The words at `p`, from word `i` on, are `ws`.
abbrev pub Holds : (Ptr → ℕ) → Ptr → ℕ → List ℕ → Type 0
Holds words p i [] = Unit {0}
Holds words p i (w ∷ ws) = (words (word_at p i) ≡ w) × Holds words p (i + 1) ws

-- A wrapper: the request is sent to the SSI, and the answer is waited for. `reply` is the address
-- of the result, NULL where there is none.
unfoldable pub request : Machine → (req reply : Ptr) → Request → Kernel → Kernel
request mach req reply r k =
    mach.msgrecv ssi_thread reply
      (mach.msgsend ssi_thread req (record k { words = write_words req 0 (encode r) k.words }))
