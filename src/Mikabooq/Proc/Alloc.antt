-- ===== src/Mikabooq/Proc/Alloc.antt =====
-- `proc_alloc`.
use os_unibo.Base.{
  ◌-◌, ◌≡◌, ◌≢◌, ◌⊎◌, inl, inr, refl, Ptr, null, update, Bool, List, [], ◌∷◌, ◌++◌, arith, uncons,
  erase,
}
use os_unibo.Listx.Moves.{move, list_next-eq}
use os_unibo.Mikabooq.{Mem, p_children, p_siblings}
use os_unibo.Mikabooq.Layout.{root, proc_h, IsProc, IsSibling}
use os_unibo.Mikabooq.Proc.{proc_alloc}
use os_unibo.Mikabooq.Proc.Valid.{IsLive, Procs, childless_of_free}
use os_unibo.Mikabooq.Proc.Reparent.{CanMove, reparent, reparent_q, reparent-Procs}

-- What a successful call leaves: the new process `p`, taken from the head of the free list, is the
-- last child of its parent, and no other list has changed.
pub record Allocated (is_head : Ptr → Bool) (q : Ptr → List Ptr) (m : Mem) (parent : Ptr) (m' : Mem)
    (p : Ptr) : Type 0 where
  pub is_proc : IsProc p
  pub ne_root : p ≢ root
  pub was_free : m.p_parent p ≡ null
  pub parents : m'.p_parent ≡ update m.p_parent p parent
  pub q' : Ptr → List Ptr
  pub valid : Procs is_head q' m'
  pub free : q proc_h ≡ p_siblings p ∷ q' proc_h
  pub children : q' (p_children parent) ≡ q (p_children parent) ++ p_siblings p ∷ []
  pub others : (x : Ptr) → x ≢ proc_h → x ≢ p_children parent → q' x ≡ q x
  -- The other tables are as they were.
  pub pcbs : m'.t_pcb ≡ m.t_pcb
  pub statuses : m'.t_status ≡ m.t_status
  pub senders : m'.m_sender ≡ m.m_sender
  pub sys_mgrs : m'.sys_mgr ≡ m.sys_mgr

module _ {is_head : Ptr → Bool} {q : Ptr → List Ptr} {m : Mem} (v : Procs is_head q m)
    (parent : Ptr) where
  -- With no parent, or no free descriptor, `proc_alloc` returns NULL and changes nothing.
  pub proc_alloc-null : (parent ≡ null) ⊎ (q proc_h ≡ []) → proc_alloc parent m ≡ (m, null)
  unfolding proc_alloc
  proc_alloc-null (inl e) = ground arith
  proc_alloc-null (inr e) = ground (arith, list_next-eq v.linked proc_h v.free_is)

  module _ (ip : IsProc parent) (live : IsLive m parent) (f : Ptr) (rest : List Ptr)
      (free : q proc_h ≡ f ∷ rest) where
    is_sibling : IsSibling f × (m.p_parent (f - 3) ≡ null)
    is_sibling = v.free_entry f (ground arith)

    can_move : CanMove m (f - 3) parent
    can_move = record {
      proc = is_sibling.0.proc;
      not_root = is_sibling.0.not_root;
      parent = inr (ip, live);
      childless = childless_of_free v (f - 3) is_sibling.0.proc is_sibling.0.not_root is_sibling.1;
    }

    -- The tests of the code pass, and the process is given its parent.
    proc_alloc-reparent : proc_alloc parent m ≡ (reparent (f - 3) parent m, f - 3)
    unfolding proc_alloc
    proc_alloc-reparent =
        ground (arith, list_next-eq v.linked proc_h v.free_is, is_sibling.0.offset, ip)

    reparent-Allocated : Allocated is_head q m parent (reparent (f - 3) parent m) (f - 3)
    unfolding reparent_q move erase
    reparent-Allocated = record {
      is_proc = is_sibling.0.proc;
      ne_root = is_sibling.0.not_root;
      was_free = is_sibling.1;
      parents = refl;
      q' = reparent_q v (f - 3) parent can_move;
      valid = reparent-Procs v (f - 3) parent can_move;
      free = ground (arith, is_sibling, ip);
      children = ground (arith, is_sibling, ip);
      others = λ x nf nc. ground (arith, is_sibling, ip);
      pcbs = refl;
      statuses = refl;
      senders = refl;
      sys_mgrs = refl;
    }

  -- Given a live parent and a free descriptor, `proc_alloc` makes the first free process the last
  -- child of the parent, leaves the other lists as they were, and keeps the invariant of the tree.
  pub proc_alloc-Allocated :
      IsProc parent
      → IsLive m parent
      → q proc_h ≢ []
      → let (m', p) = proc_alloc parent m in Allocated is_head q m parent m' p
  proc_alloc-Allocated ip live ne =
      let (f, rest, e) = uncons (q proc_h) ne in
      rw (proc_alloc-reparent ip live f rest e) (reparent-Allocated ip live f rest e)
