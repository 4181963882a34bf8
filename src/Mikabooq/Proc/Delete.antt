-- ===== src/Mikabooq/Proc/Delete.antt =====
-- `proc_delete`.
use os_unibo.Base.{
  ◌≡◌, ◌≢◌, ◌⊎◌, inl, inr, refl, pos, negsuc, Ptr, null, update, Bool, List, [], ◌∷◌, ◌++◌, arith,
  erase,
}
use os_unibo.Listx.Moves.{move, list_empty-eq}
use os_unibo.Mikabooq.{Mem, p_threads, p_children, p_siblings}
use os_unibo.Mikabooq.Layout.{proc_h, IsProc}
use os_unibo.Mikabooq.Proc.{clean_mgr, proc_delete}
use os_unibo.Mikabooq.Proc.Valid.{Procs, Procs-frame, childless_of_nil}
use os_unibo.Mikabooq.Proc.Reparent.{CanMove, reparent, reparent_q, reparent-Procs}

-- What a successful call leaves: `p` is the last of the free list, has no parent and no managers,
-- and is gone from the children of its old parent. No other list has changed.
pub record Deleted (is_head : Ptr → Bool) (q : Ptr → List Ptr) (m : Mem) (p : Ptr) (m' : Mem)
    : Type 0 where
  pub parents : m'.p_parent ≡ update m.p_parent p null
  pub no_pgm_mgr : m'.pgm_mgr p ≡ null
  pub no_tlb_mgr : m'.tlb_mgr p ≡ null
  pub no_sys_mgr : m'.sys_mgr p ≡ null
  pub q' : Ptr → List Ptr
  pub valid : Procs is_head q' m'
  pub free : q' proc_h ≡ q proc_h ++ p_siblings p ∷ []
  pub children :
      q' (p_children (m.p_parent p)) ≡ erase (p_siblings p) (q (p_children (m.p_parent p)))
  pub others : (x : Ptr) → x ≢ proc_h → x ≢ p_children (m.p_parent p) → q' x ≡ q x
  pub other_mgrs : (x : Ptr) → x ≢ p → m'.sys_mgr x ≡ m.sys_mgr x
  -- The tables of threads and messages are as they were.
  pub pcbs : m'.t_pcb ≡ m.t_pcb
  pub statuses : m'.t_status ≡ m.t_status
  pub senders : m'.m_sender ≡ m.m_sender

module _ {is_head : Ptr → Bool} {q : Ptr → List Ptr} {m : Mem} (v : Procs is_head q m) (p : Ptr)
    (ip : IsProc p) where
  -- The root, a process that is not in the tree, and one with children or threads stay, and -1 is
  -- returned.
  pub proc_delete-refused :
      (m.p_parent p ≡ null) ⊎ ((q (p_children p) ≢ []) ⊎ (q (p_threads p) ≢ []))
      → proc_delete p m ≡ (m, negsuc 0)
  unfolding proc_delete
  proc_delete-refused (inl e) = ground arith
  proc_delete-refused (inr (inl e)) =
      ground (arith, list_empty-eq v.linked (p_children p) (v.children_is p ip))
  proc_delete-refused (inr (inr e)) =
      ground (arith, list_empty-eq v.linked (p_threads p) (v.threads_is p ip))

  module _ (has_parent : m.p_parent p ≢ null) (no_children : q (p_children p) ≡ [])
      (no_threads : q (p_threads p) ≡ []) where
    can_move : CanMove m p null
    can_move = record {
      proc = ip;
      not_root = ground (arith, v.root_orphan);
      parent = inl refl;
      childless = childless_of_nil v p ip no_children;
    }

    after : Mem
    unfolding clean_mgr
    after = clean_mgr p (reparent p null m)

    proc_delete-reparent : proc_delete p m ≡ (after, pos 0)
    unfolding proc_delete after
    proc_delete-reparent = ground (
      arith,
      list_empty-eq v.linked (p_children p) (v.children_is p ip),
      list_empty-eq v.linked (p_threads p) (v.threads_is p ip),
    )

    after-Deleted : Deleted is_head q m p after
    unfolding after reparent_q move erase
    after-Deleted =
        let moved = reparent-Procs v p null can_move in
        let parent = v.parent_live p ip has_parent in
        record {
          parents = refl;
          no_pgm_mgr = ground arith;
          no_tlb_mgr = ground arith;
          no_sys_mgr = ground arith;
          q' = reparent_q v p null can_move;
          valid = Procs-frame moved after moved.linked refl refl (λ _ _. refl);
          free = ground (arith, parent);
          children = ground (arith, parent);
          others = λ x nf nc. ground (arith, parent);
          other_mgrs = λ x ne. ground arith;
          pcbs = refl;
          statuses = refl;
          senders = refl;
        }

    -- A process of the tree with no children and no threads goes to the end of the free list, without
    -- parent and managers, 0 is returned, and the invariant of the tree holds.
    pub proc_delete-Deleted :
        let (m', code) = proc_delete p m in (code ≡ pos 0) × Deleted is_head q m p m'
    proc_delete-Deleted = rw proc_delete-reparent (refl, after-Deleted)
