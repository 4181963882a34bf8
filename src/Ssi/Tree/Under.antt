-- ===== src/Ssi/Tree/Under.antt =====
-- The processes under a process, and what the termination of one leaves.
use os_unibo.Base.{◌≡◌, ◌≢◌, ◌⊎◌, ◌≤◌, ◌<◌, Ptr, null, Bool, List, ℕ, arith}
use os_unibo.Mikabooq.{Mem}
use os_unibo.Mikabooq.Layout.{IsProc, IsThread}
use os_unibo.Mikabooq.Valid.{Valid}
use os_unibo.Kernel.{Kernel}
use os_unibo.Ssi.Counted.{Counted}
use os_unibo.Ssi.Settled.{Settled}

-- `c` is `p` or one of its progeny.
pub data Under (m : Mem) (p : Ptr) : Ptr → Type 0 where
  itself : Under m p p
  below : (c : Ptr) → IsProc c → m.p_parent c ≢ null → Under m p (m.p_parent c) → Under m p c

-- The processes form trees: a child has a smaller number than its parent.
abbrev pub IsRanked : (rank : Ptr → ℕ) → Mem → Type 0
IsRanked rank m = (c : Ptr) → IsProc c → m.p_parent c ≢ null → rank c < rank (m.p_parent c)

-- No process has got another parent.
abbrev pub Shrinks : Mem → Mem → Type 0
Shrinks m m' = (c : Ptr) → (m'.p_parent c ≡ m.p_parent c) ⊎ (m'.p_parent c ≡ null)

pub Under-le-rank :
    {m : Mem} {p c : Ptr} (rank : Ptr → ℕ) → IsRanked rank m → Under m p c → rank c ≤ rank p
Under-le-rank rank ranked itself = omega arith
Under-le-rank rank ranked (below c ic ne u) =
    omega (arith, ranked c ic ne, Under-le-rank rank ranked u)

pub Shrinks-IsRanked :
    (m m' : Mem) (rank : Ptr → ℕ) → Shrinks m m' → IsRanked rank m → IsRanked rank m'
Shrinks-IsRanked m m' rank shrinks ranked c ic ne = ground (arith, shrinks c, ranked c ic)

-- What is under a process of the smaller tree is under it, or under its parent, in the larger one.
pub Shrinks-Under :
    {m m' : Mem} {p x c : Ptr} → Shrinks m m' → Under m p x → Under m' x c → Under m p c
Shrinks-Under shrinks u itself = u
Shrinks-Under {m} {m'} {p} shrinks u (below c ic ne above) =
    let same : m'.p_parent c ≡ m.p_parent c = ground (arith, shrinks c) in
    below c ic (rw same at ne) (rw same at (Shrinks-Under shrinks u above))

-- Every process under one that has a parent has a parent.
pub Under-live : {m : Mem} {p c : Ptr} → m.p_parent p ≢ null → Under m p c → m.p_parent c ≢ null
Under-live ne itself = ne
Under-live ne (below c ic has u) = has

-- The process `p` is deleted, only processes under it are, and only their threads have ended.
pub record Gone (is_head : Ptr → Bool) (q : Ptr → List Ptr) (k : Kernel) (p : Ptr) (k' : Kernel)
    : Type 0 where
  pub q' : Ptr → List Ptr
  pub valid : Valid is_head q' k'.mem
  pub settled : Settled is_head q' k'.mem
  pub counted : Counted k → Counted k'
  pub deleted : k'.mem.p_parent p ≡ null
  pub procs :
      (c : Ptr)
      → (k'.mem.p_parent c ≡ k.mem.p_parent c) ⊎ ((k'.mem.p_parent c ≡ null) × Under k.mem p c)
  pub threads :
      (t : Ptr)
      → (k'.mem.t_pcb t ≡ k.mem.t_pcb t) ⊎ ((k'.mem.t_pcb t ≡ null) × Under k.mem p (k.mem.t_pcb t))

-- The processes from `p` down are free and their threads have ended; the others keep their parents
-- and their threads. `thread_count` is right if it was.
pub record Terminated (is_head : Ptr → Bool) (k : Kernel) (p : Ptr) (k' : Kernel) : Type 0 where
  pub q' : Ptr → List Ptr
  pub valid : Valid is_head q' k'.mem
  pub settled : Settled is_head q' k'.mem
  pub counted : Counted k → Counted k'
  pub progeny : (c : Ptr) → Under k.mem p c → k'.mem.p_parent c ≡ null
  pub their_threads : (t : Ptr) → IsThread t → Under k.mem p (k.mem.t_pcb t) → k'.mem.t_pcb t ≡ null
  pub other_procs : (c : Ptr) → (k'.mem.p_parent c ≡ k.mem.p_parent c) ⊎ Under k.mem p c
  pub other_threads : (t : Ptr) → (k'.mem.t_pcb t ≡ k.mem.t_pcb t) ⊎ Under k.mem p (k.mem.t_pcb t)

-- So nothing under `p` is left.
module _ {is_head : Ptr → Bool} {q : Ptr → List Ptr} (k : Kernel) (v : Valid is_head q k.mem)
    (p : Ptr) (has_parent : k.mem.p_parent p ≢ null) (k' : Kernel)
    (gone : Gone is_head q k p k') where
  progeny_gone : {c : Ptr} → Under k.mem p c → k'.mem.p_parent c ≡ null
  progeny_gone itself = gone.deleted
  progeny_gone (below c ic ne u) = ground (
    arith,
    progeny_gone u,
    gone.procs c,
    gone.valid.procs.parent_live c ic,
    Under-live has_parent u,
    v.procs.root_orphan,
  )

  threads_gone : (t : Ptr) → IsThread t → Under k.mem p (k.mem.t_pcb t) → k'.mem.t_pcb t ≡ null
  threads_gone t it u = ground (
    arith,
    progeny_gone u,
    gone.threads t,
    gone.valid.threads.owner_live t it,
    Under-live has_parent u,
    v.procs.root_orphan,
  )

  pub Gone-Terminated : Terminated is_head k p k'
  Gone-Terminated = record {
    q' = gone.q';
    valid = gone.valid;
    settled = gone.settled;
    counted = gone.counted;
    progeny = λ c u. progeny_gone u;
    their_threads = threads_gone;
    other_procs = λ c. ground (arith, gone.procs c);
    other_threads = λ t. ground (arith, gone.threads t);
  }
