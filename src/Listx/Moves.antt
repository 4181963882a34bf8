-- ===== src/Listx/Moves.antt =====
-- `list_del` followed by `list_add_tail`: an entry moves from one list to the end of another.
use os_unibo.Base.{
  Ptr, null, update, ◌≡◌, Bool, true, List, [], ◌∷◌, ◌++◌, arith, ◌==◌, if◌then◌else◌, Bool-cases,
  has, ◌∈◌, erase, has-append, has-erase,
}
use os_unibo.Listx.{Links, list_add, list_add_tail, list_del, list_empty, list_next}
use os_unibo.Listx.Ring.{first, is_nil, list_next-first, list_empty-is_nil}
use os_unibo.Listx.Queues.{
  Linked, list_del-Linked, list_del-IsLoose, list_add_tail-Linked, list_add-Linked,
}

-- `e` leaves the list of `h` and joins that of `k`, at its end.
unfoldable pub move : (e h k : Ptr) → (Ptr → List Ptr) → Ptr → List Ptr
move e h k q = let q' = update q h (erase e (q h)) in update q' k (q' k ++ e ∷ [])

-- The same, to the front.
unfoldable pub move_front : (e h k : Ptr) → (Ptr → List Ptr) → Ptr → List Ptr
move_front e h k q = let q' = update q h (erase e (q h)) in update q' k (e ∷ q' k)

module _ {is_head : Ptr → Bool} {l : Links} {q : Ptr → List Ptr} (linked : Linked is_head l q)
    (e h k : Ptr) (ih : is_head h ≡ true) (ik : is_head k ≡ true) (m : e ∈ q h) where
  pub move-Linked : Linked is_head (list_add_tail e k (list_del e l)) (move e h k q)
  unfolding move
  move-Linked =
      list_add_tail-Linked (list_del-Linked linked e h ih m) e k ik
        (list_del-IsLoose linked e h ih m)

  pub move_front-Linked : Linked is_head (list_add e k (list_del e l)) (move_front e h k q)
  unfolding move_front
  move_front-Linked =
      list_add-Linked (list_del-Linked linked e h ih m) e k ik (list_del-IsLoose linked e h ih m)

  -- After the move `e` is in the list of `k` alone, and every other entry is where it was.
  pub has-move :
      (a x : Ptr)
      → is_head x ≡ true
      → has a (move e h k q x) ≡ (if a == e then x == k else has a (q x))
  unfolding move
  has-move a x ix = ground (
    arith,
    has-append a (q k) (e ∷ []),
    has-append a (erase e (q h)) (e ∷ []),
    has-erase a e (q h) (linked.ring h ih).distinct,
    linked.unique h x e ih ix m,
    Bool-cases (has e (q x)),
  )

  pub has-move_front :
      (a x : Ptr)
      → is_head x ≡ true
      → has a (move_front e h k q x) ≡ (if a == e then x == k else has a (q x))
  unfolding move_front
  has-move_front a x ix = ground (
    arith,
    has-erase a e (q h) (linked.ring h ih).distinct,
    linked.unique h x e ih ix m,
    Bool-cases (has e (q x)),
  )

module _ {is_head : Ptr → Bool} {l : Links} {q : Ptr → List Ptr} (linked : Linked is_head l q)
    (h : Ptr) (ih : is_head h ≡ true) where
  pub list_next-eq : list_next h l ≡ first (q h) null
  list_next-eq = list_next-first (q h) (linked.ring h ih)

  pub list_empty-eq : list_empty h l ≡ is_nil (q h)
  list_empty-eq = list_empty-is_nil (q h) (linked.ring h ih)
