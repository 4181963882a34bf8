-- ===== src/Ssi/Tree/Children.antt =====
-- The second loop of `__terminate_process_s` ends the children of the process, each with its progeny.
use os_unibo.Base.{
  ℕ, zero, suc, ◌-◌, ◌≤◌, ◌<◌, ◌≡◌, ◌≢◌, ◌⊎◌, inl, inr, refl, ◌∙◌, Ptr, null, Bool, false, List, [],
  ◌∷◌, Option, some, ◌==◌, arith, erase, has-erase, IsDistinct-erase, length, length-erase,
  length-le-within, nil_or_cons,
}
use os_unibo.Listx.Moves.{list_next-eq}
use os_unibo.Mikabooq.{p_children, p_siblings}
use os_unibo.Mikabooq.Layout.{IsProc, IsSibling}
use os_unibo.Mikabooq.Proc.{proc_firstchild}
use os_unibo.Mikabooq.Valid.{Valid}
use os_unibo.Kernel.{Kernel}
use os_unibo.Ssi.Tree.{terminate_children}
use os_unibo.Ssi.Counted.{Counted}
use os_unibo.Ssi.Settled.{Settled}
use os_unibo.Ssi.Tree.Under.{
  Under, itself, below, IsRanked, Shrinks, Under-le-rank, Shrinks-IsRanked, Shrinks-Under, Gone,
}

-- The process has no children, and only processes under it and their threads are gone.
pub record Childless (is_head : Ptr → Bool) (q : Ptr → List Ptr) (k : Kernel) (p : Ptr)
    (k' : Kernel) : Type 0 where
  pub q' : Ptr → List Ptr
  pub valid : Valid is_head q' k'.mem
  pub settled : Settled is_head q' k'.mem
  pub no_children : q' (p_children p) ≡ []
  pub same_parent : k'.mem.p_parent p ≡ k.mem.p_parent p
  pub counted : Counted k → Counted k'
  pub procs :
      (c : Ptr)
      → (k'.mem.p_parent c ≡ k.mem.p_parent c) ⊎ ((k'.mem.p_parent c ≡ null) × Under k.mem p c)
  pub threads :
      (t : Ptr)
      → (k'.mem.t_pcb t ≡ k.mem.t_pcb t) ⊎ ((k'.mem.t_pcb t ≡ null) × Under k.mem p (k.mem.t_pcb t))

-- `terminate` ends every process whose rank is below `depth`.
abbrev pub Terminates :
    (Ptr → Bool) → (rank : Ptr → ℕ) (depth : ℕ) → (Ptr → Kernel → Option Kernel) → Type 0
Terminates is_head rank depth terminate =
    (child : Ptr) (q : Ptr → List Ptr) (k : Kernel)
    → Valid is_head q k.mem
    → Settled is_head q k.mem
    → IsProc child
    → k.mem.p_parent child ≢ null
    → IsRanked rank k.mem
    → rank child < depth
    → (k' : Kernel) × (terminate child k ≡ some k') × Gone is_head q k child k'

module _ {is_head : Ptr → Bool} (rank : Ptr → ℕ) (depth : ℕ)
    (terminate : Ptr → Kernel → Option Kernel)
    (terminates : Terminates is_head rank depth terminate) (p : Ptr) (ip : IsProc p)
    (low : rank p ≤ depth) where
  module _ {q : Ptr → List Ptr} (k : Kernel) (v : Valid is_head q k.mem)
      (settled : Settled is_head q k.mem) (has_parent : k.mem.p_parent p ≢ null)
      (ranked : IsRanked rank k.mem) where
    none_left :
        (fuel : ℕ) → q (p_children p) ≡ [] → terminate_children terminate (suc fuel) p k ≡ some k
    unfolding terminate_children proc_firstchild
    none_left fuel e =
        ground (arith, list_next-eq v.msgs.linked (p_children p) (v.procs.children_is p ip))

    module _ (x : Ptr) (xs : List Ptr) (e : q (p_children p) ≡ x ∷ xs) where
      abbrev child : Ptr
      child = x - p_siblings 0

      first : IsSibling x × (k.mem.p_parent child ≡ p)
      first = v.procs.child_entry p x ip (ground arith)

      child-live : k.mem.p_parent child ≢ null
      child-live = ground (arith, first, ip)

      first_child : proc_firstchild p k.mem ≡ child
      unfolding proc_firstchild
      first_child =
          ground
            (arith, list_next-eq v.msgs.linked (p_children p) (v.procs.children_is p ip), first)

      lower : rank child < rank p
      lower = ground (arith, ranked child first.0.proc, first, ip)

      child-Under : Under k.mem p child
      child-Under = below child first.0.proc child-live (rw (first.1) itself)

      first_round :
          (fuel : ℕ) (k1 : Kernel)
          → terminate child k ≡ some k1
          → terminate_children terminate (suc fuel) p k ≡ terminate_children terminate fuel p k1
      unfolding terminate_children
      first_round fuel k1 run =
          let real : (child == null) ≡ false = ground (arith, first) in
          rw (first_child, real, run) refl

      module _ (k1 : Kernel) (gone : Gone is_head q k child k1) where
        shrinks : Shrinks k.mem k1.mem
        shrinks c = ground (arith, gone.procs c)

        -- A process is not under its child.
        parent_kept : k1.mem.p_parent p ≡ k.mem.p_parent p
        parent_kept = elim (gone.procs p) [
          | inl same ↦ same
          | inr (_, u) ↦ absurd (omega (arith, lower, Under-le-rank rank ranked u))
        ]

        fewer : suc (length (gone.q' (p_children p))) ≤ length (q (p_children p))
        fewer =
            let ring = v.msgs.linked.ring (p_children p) (v.procs.children_is p ip) in
            let ring' = gone.valid.msgs.linked.ring (p_children p) (v.procs.children_is p ip) in
            let within =
              length-le-within (gone.q' (p_children p)) (erase x (q (p_children p))) ring'.distinct
                (IsDistinct-erase x (q (p_children p)) ring.distinct)
                (λ a i. ground (
                  arith,
                  has-erase a x (q (p_children p)) ring.distinct,
                  gone.valid.procs.child_entry p a ip i,
                  gone.procs (a - p_siblings 0),
                  v.procs.at_home (a - p_siblings 0),
                  gone.deleted,
                  ip,
                )) in
            omega (arith, within, length-erase x (q (p_children p)) (ground arith))

        -- What the child and the later children take with them is under the process.
        Under-child : {c : Ptr} → Under k.mem child c → Under k.mem p c
        Under-child u = Shrinks-Under (λ c. inl refl) child-Under u

        Under-later : {c : Ptr} → Under k1.mem p c → Under k.mem p c
        Under-later u = Shrinks-Under shrinks itself u

        add_round : (k' : Kernel) → Childless is_head gone.q' k1 p k' → Childless is_head q k p k'
        add_round k' rest = record {
          q' = rest.q';
          valid = rest.valid;
          settled = rest.settled;
          no_children = rest.no_children;
          same_parent = rest.same_parent ∙ parent_kept;
          counted = λ before. rest.counted (gone.counted before);
          procs = λ c. elim (rest.procs c) [
            | inr (freed, u) ↦ inr (freed, Under-later u)
            | inl same ↦ elim (gone.procs c) [
              | inl before ↦ inl (same ∙ before)
              | inr (freed, u) ↦ inr (same ∙ freed, Under-child u)
            ]
          ];
          threads = λ t. elim (rest.threads t) [
            | inr (ended, u) ↦ elim (gone.threads t) [
              | inl before ↦ inr (ended, Under-later (rw before at u))
              | inr (freed, u') ↦ inr (ended, Under-child u')
            ]
            | inl same ↦ elim (gone.threads t) [
              | inl before ↦ inl (same ∙ before)
              | inr (freed, u) ↦ inr (same ∙ freed, Under-child u)
            ]
          ];
        }

  -- With more rounds than there are children, the loop ends.
  pub terminate_children-Childless :
      (fuel : ℕ) {q : Ptr → List Ptr} (k : Kernel) (v : Valid is_head q k.mem)
      → Settled is_head q k.mem
      → k.mem.p_parent p ≢ null
      → IsRanked rank k.mem
      → length (q (p_children p)) < fuel
      → (k' : Kernel) × (terminate_children terminate fuel p k ≡ some k')
        × Childless is_head q k p k'
  terminate_children-Childless zero k v settled has ranked l = absurd (omega arith)
  terminate_children-Childless (suc fuel) {q} k v settled has ranked l =
      elim (nil_or_cons (q (p_children p))) [
        | inl e ↦ (
          k,
          none_left k v settled has ranked fuel e,
          record {
            q' = q;
            valid = v;
            settled = settled;
            no_children = e;
            same_parent = refl;
            counted = λ before. before;
            procs = λ c. inl refl;
            threads = λ t. inl refl;
          },
        )
        | inr (x, xs, e) ↦
            let (entry, parent) = first k v settled has ranked x xs e in
            let (k1, run, gone) =
              terminates (x - p_siblings 0) q k v settled entry.proc
                (child-live k v settled has ranked x xs e) ranked
                (omega (arith, lower k v settled has ranked x xs e, low)) in
            let kept = parent_kept k v settled has ranked x xs e k1 gone in
            let (k', more, rest) =
              terminate_children-Childless fuel k1 gone.valid gone.settled (rw kept has)
                (Shrinks-IsRanked k.mem k1.mem rank (shrinks k v settled has ranked x xs e k1 gone)
                  ranked)
                (omega (arith, fewer k v settled has ranked x xs e k1 gone, l)) in
            (
              k',
              first_round k v settled has ranked x xs e fuel k1 run ∙ more,
              add_round k v settled has ranked x xs e k1 gone k' rest,
            )
      ]
