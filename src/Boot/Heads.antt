-- ===== src/Boot/Heads.antt =====
-- The lists of the nucleus while it starts: which sentinels are set up, and what they hold.
use os_unibo.Base.{
  ℕ, zero, suc, ◌+◌, ◌*◌, ◌%◌, ◌<◌, ◌≤◌, Ptr, ◌≡◌, ◌≢◌, ◌↔◌, ◌⊎◌, fun_ext, Bool, true, false, ◌&&◌,
  ◌||◌, List, [], ◌∷◌, ◌++◌, ltb, leb, ◌==◌, if◌then◌else◌, arith, has, has-append, update,
}
use os_unibo.Listx.{Links, init_list_head, list_add_tail}
use os_unibo.Listx.Queues.{Linked, IsLoose, init_list_head-Linked, list_add_tail-Linked}
use os_unibo.Mikabooq.{
  process, thread, message, p_threads, p_children, p_siblings, t_next, t_msgq, t_wait4me, m_next,
  thread_h, message_h, t_wait4clock,
}
use os_unibo.Mikabooq.Layout.{proc_h}

-- `n` addresses from `base` on, one for each descriptor.
unfoldable pub series : ℕ → ℕ → List Ptr
series base zero = []
series base (suc n) = series base n ++ (base + 16 * n) ∷ []

unfoldable pub series_down : ℕ → ℕ → List Ptr
series_down base zero = []
series_down base (suc n) = (base + 16 * n) ∷ series_down base n

unfoldable pub in_series : ℕ → ℕ → Ptr → Bool
in_series base n a = a % 16 == base % 16 && (leb base a && ltb a (base + 16 * n))

pub has-series : (base n : ℕ) (a : Ptr) → has a (series base n) ≡ in_series base n a
unfolding series in_series
has-series base zero a = ground arith
has-series base (suc n) a =
    ground (arith, has-append a (series base n) ((base + 16 * n) ∷ []), has-series base n a)

pub has-series_down : (base n : ℕ) (a : Ptr) → has a (series_down base n) ≡ in_series base n a
unfolding series_down in_series
has-series_down base zero a = ground arith
has-series_down base (suc n) a = ground (arith, has-series_down base n a)

pub in_series-suc :
    (base n : ℕ) (a : Ptr) → in_series base (suc n) a ≡ (a == base + 16 * n || in_series base n a)
unfolding in_series
in_series-suc base n a = ground arith

pub in_series_iff :
    (base n : ℕ) (a : Ptr)
    → (in_series base n a ≡ true) ↔ ((a % 16 ≡ base % 16) × (base ≤ a) × (a < base + 16 * n))
unfolding in_series
in_series_iff base n a = ground arith

pub in_series-false :
    (base n : ℕ) (a : Ptr)
    → (a % 16 ≢ base % 16) ⊎ ((a < base) ⊎ (base + 16 * n ≤ a))
    → in_series base n a ≡ false
unfolding in_series
in_series-false base n a h = ground arith

-- The sentinels once the first `np` processes and `nt` threads are set up; `root_is` says whether
-- the free list of processes is.
unfoldable pub heads : Bool → (np nt : ℕ) → Ptr → Bool
heads root_is np nt a =
    (root_is && a == proc_h)
    || in_series (p_threads (process 0)) np a
    || in_series (p_children (process 0)) np a
    || in_series (t_msgq (thread 0)) nt a
    || in_series (t_wait4me (thread 0)) nt a
    || (leb thread_h a && leb a t_wait4clock)

-- The free lists, and nothing in the others.
unfoldable pub queues : (np nt nm : ℕ) → Ptr → List Ptr
queues np nt nm a =
    if a == proc_h
    then series (p_siblings (process 1)) np
    else (if a == thread_h
        then series (t_next (thread 0)) nt
        else (if a == message_h then series_down (m_next (message 0)) nm else []))

pub Linked-cong :
    {is_head is_head' : Ptr → Bool} {l : Links} {q q' : Ptr → List Ptr}
    → ((a : Ptr) → is_head' a ≡ is_head a)
    → ((a : Ptr) → q' a ≡ q a)
    → Linked is_head l q
    → Linked is_head' l q'
Linked-cong h e linked = rw (fun_ext h, fun_ext e) linked

pub has-queues :
    (np nt nm : ℕ) (a h : Ptr)
    → has a (queues np nt nm h) ≡ (
        if h == proc_h
        then in_series (p_siblings (process 1)) np a
        else (if h == thread_h
            then in_series (t_next (thread 0)) nt a
            else (if h == message_h then in_series (m_next (message 0)) nm a else false)))
unfolding queues
has-queues np nt nm a h = ground (
  arith,
  has-series (p_siblings (process 1)) np a,
  has-series (t_next (thread 0)) nt a,
  has-series_down (m_next (message 0)) nm a,
)

module _ {is_head : Ptr → Bool} {q : Ptr → List Ptr} {a : Ptr} (loose : IsLoose is_head q a) where
  IsLoose-update : (h : Ptr) (xs : List Ptr) → has a xs ≡ false → IsLoose is_head (update q h xs) a
  IsLoose-update h xs out = record {
    not_head = loose.not_head;
    not_in = λ k ik. ground (arith, loose.not_in k ik);
  }

  pub IsLoose-init :
      (h : Ptr) → (a == h) ≡ false → IsLoose (λ x. x == h || is_head x) (update q h []) a
  IsLoose-init h ne = record {
    not_head = ground (arith, loose.not_head);
    not_in = λ k ik. ground (arith, loose.not_in k);
  }

-- A descriptor joins a free list, and two sentinels of its own are set up.
pub add_descriptor :
    {is_head : Ptr → Bool} {l : Links} {q : Ptr → List Ptr} (linked : Linked is_head l q)
    (h s t c : Ptr)
    → is_head h ≡ true
    → IsLoose is_head q s
    → IsLoose is_head q t
    → IsLoose is_head q c
    → ((t == s) ≡ false) × ((c == s) ≡ false) × ((c == t) ≡ false)
    → Linked
        (λ x. x == c || (x == t || is_head x))
        (init_list_head c (init_list_head t (list_add_tail s h l)))
        (update (update (update q h (q h ++ s ∷ [])) t []) c [])
add_descriptor {is_head} {q} linked h s t c is ls lt lc apart =
    let out : (a : Ptr) → IsLoose is_head q a → (a == s) ≡ false → has a (q h ++ s ∷ []) ≡ false =
      λ a la ne. ground (arith, has-append a (q h) (s ∷ []), la.not_in h is) in
    let listed = list_add_tail-Linked linked s h is ls in
    let lt' = IsLoose-update lt h (q h ++ s ∷ []) (out t lt apart.0) in
    let lc' = IsLoose-update lc h (q h ++ s ∷ []) (out c lc apart.1) in
    init_list_head-Linked (init_list_head-Linked listed t lt') c (IsLoose-init lc' t apart.2)

-- An address that is in no range is loose.
pub fresh :
    (root_is : Bool) (hp ht np nt nm : ℕ) (a : Ptr)
    → heads root_is hp ht a ≡ false
    → in_series (p_siblings (process 1)) np a ≡ false
    → in_series (t_next (thread 0)) nt a ≡ false
    → in_series (m_next (message 0)) nm a ≡ false
    → IsLoose (heads root_is hp ht) (queues np nt nm) a
fresh root_is hp ht np nt nm a h p t m = record {
  not_head = h;
  not_in = λ k ik. ground (arith, has-queues np nt nm a k);
}
