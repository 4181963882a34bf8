-- ===== src/Listx/Chain.antt =====
-- The way through a list of listx.h, and what the operations do to it.
use os_unibo.Base.{
  Ptr, ◌≡◌, List, [], ◌∷◌, ◌++◌, arith, ◌==◌, inl, inr, Bool-cases, ◌∈◌, ◌∉◌, IsDistinct, erase,
}
use os_unibo.Listx.{Links, list_add_tail, list_del}

-- From `a` through `xs` to `b`.
abbrev pub Chain : Links → Ptr → List Ptr → Ptr → Type 0
Chain l a [] b = (l.next a ≡ b) × (l.prev b ≡ a)
Chain l a (x ∷ xs) b = (l.next a ≡ x) × (l.prev x ≡ a) × Chain l x xs b

-- The two memories agree at the addresses of `xs`.
abbrev pub SameAt : Links → Links → Ptr → Type 0
SameAt l l' x = (l'.next x ≡ l.next x) × (l'.prev x ≡ l.prev x)

pub Chain-frame :
    (l l' : Links) (a : Ptr) (xs : List Ptr) (b : Ptr)
    → ((x : Ptr) → x ∈ a ∷ xs → l'.next x ≡ l.next x)
    → ((x : Ptr) → x ∈ b ∷ xs → l'.prev x ≡ l.prev x)
    → Chain l a xs b
    → Chain l' a xs b
Chain-frame l l' a [] b n p c = ground (arith, n a, p b)
Chain-frame l l' a (x ∷ xs) b n p c = (
  ground (arith, n a),
  ground (arith, p x),
  Chain-frame l l' x xs b (λ y h. n y (ground arith)) (λ y h. p y (ground arith)) c.2,
)

-- The last entry, or the start, stands before the end.
pub prev-has : (l : Links) (a : Ptr) (xs : List Ptr) (b : Ptr) → Chain l a xs b → l.prev b ∈ a ∷ xs
prev-has l a [] b c = ground arith
prev-has l a (x ∷ xs) b c = ground (arith, prev-has l x xs b c.2)

-- The neighbours of an entry belong to the chain.
pub neighbours-has :
    (l : Links) (a : Ptr) (xs : List Ptr) (b e : Ptr)
    → Chain l a xs b
    → e ∈ xs
    → (l.prev e ∈ a ∷ xs) × (l.next e ∈ b ∷ xs)
neighbours-has l a [] b e c h = ground arith
neighbours-has l a (x ∷ []) b e c h = ground arith
neighbours-has l a (x ∷ y ∷ xs) b e c h = ground (arith, neighbours-has l x (y ∷ xs) b e c.2)

pub add_tail-Chain :
    (l : Links) (a : Ptr) (xs : List Ptr) (b new : Ptr)
    → Chain l a xs b
    → a ∉ xs
    → b ∉ xs
    → IsDistinct xs
    → new ∉ a ∷ b ∷ xs
    → Chain (list_add_tail new b l) a (xs ++ new ∷ []) b
unfolding list_add_tail
add_tail-Chain l a [] b new c ha hb d hn = ground arith
add_tail-Chain l a (x ∷ xs) b new c ha hb d hn =
    ground (arith, prev-has l x xs b c.2, add_tail-Chain l x xs b new c.2 d.0)

-- Removing the entry that stands first.
pub del_first-Chain :
    (l : Links) (a e : Ptr) (xs : List Ptr) (b : Ptr)
    → Chain l a (e ∷ xs) b
    → a ∉ e ∷ xs
    → b ∉ e ∷ xs
    → IsDistinct (e ∷ xs)
    → Chain (list_del e l) a xs b
unfolding list_del
del_first-Chain l a e [] b c ha hb d = ground arith
del_first-Chain l a e (y ∷ xs) b c ha hb d = (
  ground arith,
  ground arith,
  Chain-frame l (list_del e l) y xs b (λ x h. ground arith) (λ x h. ground arith) c.2.2,
)

pub del-Chain :
    (l : Links) (a : Ptr) (xs : List Ptr) (b e : Ptr)
    → Chain l a xs b
    → a ∉ xs
    → b ∉ xs
    → IsDistinct xs
    → e ∈ xs
    → Chain (list_del e l) a (erase e xs) b
unfolding list_del erase
del-Chain l a [] b e c ha hb d h = ground arith
del-Chain l a (x ∷ xs) b e c ha hb d h = elim (Bool-cases (e == x)) [
  | inl hit ↦ rw hit (ground (arith, del_first-Chain l a x xs b c ha hb d))
  | inr miss ↦ rw miss (ground (arith, neighbours-has l x xs b e c.2, del-Chain l x xs b e c.2 d.0))
]
