-- ===== src/Mikabooq/Proc/Valid.antt =====
-- The process tree: which list each process descriptor is in, and what its parent field says.
use os_unibo.Base.{
  ◌-◌, ◌≡◌, ◌≢◌, ◌⊎◌, Ptr, null, Bool, true, List, ◌==◌, if◌then◌else◌, ◌∈◌, arith, [], nil_of_none,
}
use os_unibo.Listx.Queues.{Linked}
use os_unibo.Mikabooq.{Mem, p_threads, p_children, p_siblings}
use os_unibo.Mikabooq.Layout.{root, proc_h, IsProc, IsSibling}

abbrev pub IsLive : Mem → Ptr → Type 0
IsLive m p = (p ≡ root) ⊎ (m.p_parent p ≢ null)

-- The list that a process belongs to: its parent's children, or the free list.
abbrev pub home : Mem → Ptr → Ptr
home m p = if m.p_parent p == null then proc_h else p_children (m.p_parent p)

pub record Procs (is_head : Ptr → Bool) (q : Ptr → List Ptr) (m : Mem) : Type 0 where
  pub linked : Linked is_head m.links q
  pub free_is : is_head proc_h ≡ true
  pub children_is : (p : Ptr) → IsProc p → is_head (p_children p) ≡ true
  pub threads_is : (p : Ptr) → IsProc p → is_head (p_threads p) ≡ true
  pub root_orphan : m.p_parent root ≡ null
  -- An entry of the free list is a process with no parent.
  pub free_entry : (a : Ptr) → a ∈ q proc_h → IsSibling a × (m.p_parent (a - p_siblings 0) ≡ null)
  -- An entry of a list of children is a process with that parent.
  pub child_entry :
      (p a : Ptr)
      → IsProc p
      → a ∈ q (p_children p)
      → IsSibling a × (m.p_parent (a - p_siblings 0) ≡ p)
  -- Every process but the root is in the list that its parent field names.
  pub at_home : (p : Ptr) → IsProc p → p ≢ root → p_siblings p ∈ q (home m p)
  pub parent_live :
      (p : Ptr) → IsProc p → m.p_parent p ≢ null → IsProc (m.p_parent p) × IsLive m (m.p_parent p)

module _ {is_head : Ptr → Bool} {q : Ptr → List Ptr} {m : Mem} (v : Procs is_head q m) where
  pub home_is : (p : Ptr) → IsProc p → is_head (home m p) ≡ true
  home_is p i = ground (arith, v.free_is, v.parent_live p i, v.children_is (m.p_parent p))

  -- The invariant reads the lists of processes and the parent fields, and nothing else.
  pub Procs-frame :
      {q' : Ptr → List Ptr} (m' : Mem)
      → Linked is_head m'.links q'
      → m'.p_parent ≡ m.p_parent
      → q' proc_h ≡ q proc_h
      → ((p : Ptr) → IsProc p → q' (p_children p) ≡ q (p_children p))
      → Procs is_head q' m'
  Procs-frame {q'} m' linked parents same_free same = record {
    linked = linked;
    free_is = v.free_is;
    children_is = v.children_is;
    threads_is = v.threads_is;
    root_orphan = rw parents v.root_orphan;
    free_entry = λ a h. rw parents (v.free_entry a (rw same_free at h));
    child_entry = λ p a i h. rw parents (v.child_entry p a i (rw (same p i) at h));
    at_home = λ p i ne. rw (parents, same_home p i) (v.at_home p i ne);
    parent_live = λ p i ne. rw parents (v.parent_live p i (rw parents at ne));
  }
    where
      same_home : (p : Ptr) → IsProc p → q' (home m p) ≡ q (home m p)
      same_home p i = ground (arith, same_free, v.parent_live p i, same (m.p_parent p))

  -- A process that is not in the tree has no children.
  pub childless_of_free :
      (p : Ptr)
      → IsProc p
      → p ≢ root
      → m.p_parent p ≡ null
      → (c : Ptr) → IsProc c
      → m.p_parent c ≢ p
  childless_of_free p ip ne e c i = λ h. ground (arith, v.parent_live c i)

  -- Nor has one whose list of children is empty.
  pub childless_of_nil :
      (p : Ptr) → IsProc p → q (p_children p) ≡ [] → (c : Ptr) → IsProc c → m.p_parent c ≢ p
  childless_of_nil p ip e c i = λ h. ground (arith, v.at_home c i, v.root_orphan)

  pub children-nil_of_free :
      (p : Ptr) → IsProc p → p ≢ root → m.p_parent p ≡ null → q (p_children p) ≡ []
  children-nil_of_free p ip ne e =
      nil_of_none (q (p_children p))
        (λ a h. ground (arith, v.child_entry p a ip h, v.parent_live (a - 3)))
