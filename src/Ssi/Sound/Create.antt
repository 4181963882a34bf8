-- ===== src/Ssi/Sound/Create.antt =====
-- The start and the creation of processes and threads keep the invariant.
use os_unibo.Base.{
  ◌≡◌, ◌≢◌, inl, inr, Ptr, null, Bool, false, List, [], ◌∷◌, ◌++◌, arith, ◌==◌, if◌then◌else◌,
  erase, has, has-erase, has-append, IsDistinct-erase, IsDistinct-snoc, Bool-cases,
}
use os_unibo.Mikabooq.{Mem}
use os_unibo.Mikabooq.Layout.{IsProc}
use os_unibo.Mikabooq.Proc.Valid.{IsLive, childless_of_free}
use os_unibo.Mikabooq.Proc.Alloc.{Allocated as NewProc}
use os_unibo.Mikabooq.Valid.{Valid}
use os_unibo.Mikabooq.Tables.{process-Valid}
use os_unibo.Ssi.Settled.{Settled, Settled-frame}
use os_unibo.Ssi.Tree.Under.{IsRanked, Shrinks, Shrinks-IsRanked}
use os_unibo.Ssi.Sound.{Sound}
use os_unibo.Ssi.Sound.Rank.{rank_in, rank_in-pos, rank_in-none, rank_in-snoc, rank_in-erase}

module _ {is_head : Ptr → Bool} {m : Mem} (s : Sound is_head m) where
  -- As long as no process gets another parent, the same order will do.
  pub Shrinks-Sound :
      (q' : Ptr → List Ptr) (m' : Mem)
      → Shrinks m m'
      → Valid is_head q' m'
      → Settled is_head q' m'
      → Sound is_head m'
  Shrinks-Sound q' m' shrinks valid settled = record {
    q = q';
    valid = valid;
    settled = settled;
    order = s.order;
    distinct = s.distinct;
    procs = s.procs;
    listed = λ p ip live. s.listed p ip (ground (arith, live, shrinks p));
    ranked = Shrinks-IsRanked m m' (rank_in s.order) shrinks s.ranked;
  }

  module _ (m' : Mem) (parent p : Ptr) (ip : IsProc parent) (live : IsLive m parent)
      (new : NewProc is_head s.q m parent m' p) where
    pub new-Settled : Settled is_head new.q' m'
    new-Settled =
        Settled-frame s.valid s.settled new.pcbs new.statuses
          (λ x sched.
            new.others x (λ e. ground (arith, sched.place)) (λ e. ground (arith, sched.place, ip)))
          (λ h a ih aligned i.
            ground (arith, new.others h, new.valid.free_entry a, new.valid.child_entry parent a ip))
          (λ x ix. rw new.sys_mgrs (s.settled.mgrs x ix))

    -- The new process is the last of the order.
    abbrev order' : List Ptr
    order' = erase p s.order ++ p ∷ []

    apart : parent ≢ p
    apart = ground (arith, live, new.was_free, new.ne_root)

    kept : (c : Ptr) → has c (erase p s.order) ≡ (if c == p then false else has c s.order)
    kept c = has-erase c p s.order s.distinct

    ranked' : IsRanked (rank_in order') m'
    ranked' c ic has_parent = elim (Bool-cases (c == p)) [
      | inl hit ↦ ground (
        arith,
        new.parents,
        rank_in-snoc (erase p s.order) p c,
        rank_in-snoc (erase p s.order) p parent,
        kept c,
        kept parent,
        s.listed parent ip live,
        rank_in-pos (erase p s.order) parent,
        apart,
      )
      | inr miss ↦
          let before : m.p_parent c ≢ null = ground (arith, new.parents) in
          let other = childless_of_free s.valid.procs p new.is_proc new.ne_root new.was_free c ic in
          let lower =
            rank_in-erase p s.order c (m.p_parent c) (ground arith) other (s.ranked c ic before) in
          ground (
            arith,
            new.parents,
            lower,
            rank_in-none (erase p s.order) (m.p_parent c),
            rank_in-snoc (erase p s.order) p c,
            rank_in-snoc (erase p s.order) p (m.p_parent c),
          )
    ]

    pub process-Sound : Sound is_head m'
    process-Sound = record {
      q = new.q';
      valid = process-Valid s.valid m' parent p ip new;
      settled = new-Settled;
      order = order';
      distinct =
          IsDistinct-snoc (erase p s.order) p (IsDistinct-erase p s.order s.distinct)
            (ground (arith, kept p));
      procs = λ c i.
          ground (arith, has-append c (erase p s.order) (p ∷ []), kept c, s.procs c, new.is_proc);
      listed = λ c ic alive. ground (
        arith,
        has-append c (erase p s.order) (p ∷ []),
        kept c,
        s.listed c ic,
        new.parents,
        alive,
        Bool-cases (c == p),
      );
      ranked = ranked';
    }
