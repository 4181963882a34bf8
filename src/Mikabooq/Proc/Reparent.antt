-- ===== src/Mikabooq/Proc/Reparent.antt =====
-- A process gets another parent, or none, and moves to the list where it then belongs. Both
-- `proc_alloc` and `proc_delete` do this.
use os_unibo.Base.{
  ◌-◌, ◌≡◌, ◌≢◌, ◌⊎◌, inl, inr, Ptr, null, update, Bool, true, List, ◌==◌, if◌then◌else◌, ◌∈◌, has,
  arith, Bool-cases,
}
use os_unibo.Listx.{list_add_tail, list_del}
use os_unibo.Listx.Moves.{move, move-Linked, has-move}
use os_unibo.Mikabooq.{Mem, p_children, p_siblings}
use os_unibo.Mikabooq.Layout.{root, proc_h, IsProc, IsSibling}
use os_unibo.Mikabooq.Proc.Valid.{IsLive, home, home_is, Procs}

abbrev pub home_of : Ptr → Ptr
home_of w = if w == null then proc_h else p_children w

-- The new parent `w` of `p` is none or a process in the tree, and `p` is the parent of none.
pub record CanMove (m : Mem) (p w : Ptr) : Type 0 where
  pub proc : IsProc p
  pub not_root : p ≢ root
  pub parent : (w ≡ null) ⊎ (IsProc w × IsLive m w)
  pub childless : (c : Ptr) → IsProc c → m.p_parent c ≢ p

abbrev pub reparent : (p w : Ptr) → Mem → Mem
reparent p w m = record m {
  links = list_add_tail (p_siblings p) (home_of w) (list_del (p_siblings p) m.links);
  p_parent = update m.p_parent p w;
}

module _ {is_head : Ptr → Bool} {q : Ptr → List Ptr} {m : Mem} (v : Procs is_head q m) (p w : Ptr)
    (can : CanMove m p w) where
  unfoldable pub reparent_q : Ptr → List Ptr
  reparent_q = move (p_siblings p) (home m p) (home_of w) q

  home_of_is : is_head (home_of w) ≡ true
  home_of_is = ground (arith, v.free_is, v.children_is w, can.parent)

  pub moved :
      (a x : Ptr)
      → is_head x ≡ true
      → has a (reparent_q x) ≡ (if a == p_siblings p then x == home_of w else has a (q x))
  unfolding reparent_q
  moved =
      has-move v.linked (p_siblings p) (home m p) (home_of w) (home_is v p can.proc) home_of_is
        (v.at_home p can.proc can.not_root)

  kept-IsLive : (k : Ptr) → (k ≢ p) ⊎ (w ≢ null) → IsLive m k → IsLive (reparent p w m) k
  kept-IsLive k ne (inl e) = inl e
  kept-IsLive k ne (inr e) = inr (ground arith)

  reparent-free_entry :
      (a : Ptr)
      → a ∈ reparent_q proc_h
      → IsSibling a × ((reparent p w m).p_parent (a - p_siblings 0) ≡ null)
  reparent-free_entry a h =
      ground (arith, moved a proc_h v.free_is, v.free_entry a, can.proc, can.not_root, can.parent)

  reparent-child_entry :
      (k a : Ptr)
      → IsProc k
      → a ∈ reparent_q (p_children k)
      → IsSibling a × ((reparent p w m).p_parent (a - p_siblings 0) ≡ k)
  reparent-child_entry k a i h = ground (
    arith,
    moved a (p_children k) (v.children_is k i),
    v.child_entry k a i,
    can.proc,
    can.not_root,
    can.parent,
  )

  reparent-at_home :
      (k : Ptr) → IsProc k → k ≢ root → p_siblings k ∈ reparent_q (home (reparent p w m) k)
  reparent-at_home k i ne = elim (Bool-cases (k == p)) [
    | inl hit ↦ ground (arith, moved (p_siblings p) (home_of w) home_of_is)
    | inr miss ↦ ground (arith, moved (p_siblings k) (home m k) (home_is v k i), v.at_home k i)
  ]

  reparent-parent :
      (k : Ptr)
      → IsProc k
      → (reparent p w m).p_parent k ≢ null
      → IsProc ((reparent p w m).p_parent k) × IsLive (reparent p w m) ((reparent p w m).p_parent k)
  reparent-parent k i ne = elim (Bool-cases (k == p)) [
    | inl hit ↦ ground (arith, can.parent, kept-IsLive w)
    | inr miss ↦ ground (arith, v.parent_live k i, can.childless k i, kept-IsLive (m.p_parent k))
  ]

  pub reparent-Procs : Procs is_head reparent_q (reparent p w m)
  unfolding reparent_q
  reparent-Procs = record {
    linked =
        move-Linked v.linked (p_siblings p) (home m p) (home_of w) (home_is v p can.proc) home_of_is
          (v.at_home p can.proc can.not_root);
    free_is = v.free_is;
    children_is = v.children_is;
    threads_is = v.threads_is;
    root_orphan = ground (arith, v.root_orphan, can.not_root);
    free_entry = reparent-free_entry;
    child_entry = reparent-child_entry;
    at_home = reparent-at_home;
    parent_live = reparent-parent;
  }
