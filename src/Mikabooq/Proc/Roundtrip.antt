-- ===== src/Mikabooq/Proc/Roundtrip.antt =====
-- `proc_delete` undoes `proc_alloc`.
use os_unibo.Base.{
  ◌≡◌, ◌≢◌, ◌∙◌, pos, Ptr, null, Bool, List, [], ◌==◌, arith, erase-snoc, ◌∉◌, has, Bool-cases, inl,
  inr,
}
use os_unibo.Mikabooq.{Mem, p_threads, p_children, p_siblings}
use os_unibo.Mikabooq.Layout.{root, proc_h, IsProc}
use os_unibo.Mikabooq.Proc.{proc_alloc, proc_delete}
use os_unibo.Mikabooq.Proc.Valid.{IsLive, Procs, children-nil_of_free}
use os_unibo.Mikabooq.Proc.Alloc.{Allocated, proc_alloc-Allocated}
use os_unibo.Mikabooq.Proc.Delete.{Deleted, proc_delete-Deleted}

-- The tree of `m'` is that of `m`.
pub record SameTree (is_head : Ptr → Bool) (q : Ptr → List Ptr) (m m' : Mem) : Type 0 where
  pub parents : (x : Ptr) → m'.p_parent x ≡ m.p_parent x
  pub q' : Ptr → List Ptr
  pub valid : Procs is_head q' m'
  pub others : (x : Ptr) → x ≢ proc_h → q' x ≡ q x

module _ {is_head : Ptr → Bool} {q : Ptr → List Ptr} {m : Mem} (v : Procs is_head q m)
    (parent : Ptr) (ip : IsProc parent) (live : IsLive m parent)
    (threadless : (p : Ptr)
      → IsProc p
      → p ≢ root
      → m.p_parent p ≡ null
      → q (p_threads p) ≡ []) where
  module _ {m' : Mem} {p : Ptr} (a : Allocated is_head q m parent m' p) where
    new-ne-parent : p ≢ parent
    new-ne-parent = ground (arith, live, a.was_free, a.ne_root)

    sibling_out : p_siblings p ∉ q (p_children parent)
    sibling_out = elim (Bool-cases (has (p_siblings p) (q (p_children parent)))) [
      | inl e ↦ ground (arith, v.child_entry parent (p_siblings p) ip e, a.was_free, ip)
      | inr e ↦ e
    ]

    pub no_children : a.q' (p_children p) ≡ []
    no_children =
        a.others (p_children p) (omega (arith, a.is_proc)) (ground (arith, new-ne-parent))
        ∙ children-nil_of_free v p a.is_proc a.ne_root a.was_free

    pub no_threads : a.q' (p_threads p) ≡ []
    no_threads =
        a.others (p_threads p) (omega (arith, a.is_proc)) (omega (arith, a.is_proc, ip))
        ∙ threadless p a.is_proc a.ne_root a.was_free

    restored : {m'' : Mem} → Deleted is_head a.q' m' p m'' → SameTree is_head q m m''
    restored d = record {
      parents = λ x. ground (arith, a.parents, d.parents, a.was_free);
      q' = d.q';
      valid = d.valid;
      others = λ x ne. elim (Bool-cases (x == p_children parent)) [
        | inl hit ↦ ground (
          arith,
          a.parents,
          a.children,
          d.children,
          erase-snoc (p_siblings p) (q (p_children parent)) sibling_out,
        )
        | inr miss ↦ ground (arith, a.parents, a.others x, d.others x)
      ];
    }

    undo : let (m'', code) = proc_delete p m' in (code ≡ pos 0) × SameTree is_head q m m''
    undo =
        let (done, d) =
          proc_delete-Deleted a.valid p a.is_proc (ground (arith, a.parents, ip)) no_children
            no_threads in
        (done, restored d)

  -- A process that is deleted as soon as it was allocated leaves the tree as it was.
  pub proc_delete-proc_alloc :
      q proc_h ≢ []
      → let (m', p) = proc_alloc parent m in
        let (m'', code) = proc_delete p m' in (code ≡ pos 0) × SameTree is_head q m m''
  proc_delete-proc_alloc ne = undo (proc_alloc-Allocated v parent ip live ne)
