-- ===== src/Listx/Ring.antt =====
-- What a list of listx.h stands for: the sequence of addresses that `next` leads through, from the
-- sentinel back to it, with every `prev` pointing the other way.
use os_unibo.Base.{
  Ptr, null, ◌≡◌, refl, Bool, true, false, List, [], ◌∷◌, ◌++◌, arith, ◌==◌, ◌∈◌, ◌∉◌, IsDistinct,
  erase, IsDistinct-snoc, IsDistinct-erase, not-has-erase, has-append,
}
use os_unibo.Listx.{
  Links, init_list_head, list_add, list_add_tail, list_del, list_empty, list_next, list_is_only,
}
use os_unibo.Listx.Chain.{
  Chain, SameAt, Chain-frame, prev-has, neighbours-has, add_tail-Chain, del-Chain,
}

pub record Ring (l : Links) (head : Ptr) (xs : List Ptr) : Type 0 where
  pub chain : Chain l head xs head
  pub apart : head ∉ xs
  pub distinct : IsDistinct xs

abbrev pub first : List Ptr → Ptr → Ptr
first [] b = b
first (x ∷ xs) b = x

abbrev pub is_nil : List Ptr → Bool
is_nil [] = true
is_nil (x ∷ xs) = false

abbrev pub is_single : List Ptr → Bool
is_single [] = false
is_single (x ∷ []) = true
is_single (x ∷ y ∷ xs) = false

-- A list survives every change that spares its own addresses.
pub Ring-frame :
    {l l' : Links} {head : Ptr} {xs : List Ptr}
    → ((x : Ptr) → x ∈ head ∷ xs → SameAt l l' x)
    → Ring l head xs
    → Ring l' head xs
Ring-frame {l} {l'} {head} {xs} same r = record {
  chain = Chain-frame l l' head xs head (λ x h. (same x h).0) (λ x h. (same x h).1) r.chain;
  apart = r.apart;
  distinct = r.distinct;
}

-- `list_add_tail` puts a new entry behind the last.
pub list_add_tail-Ring :
    {l : Links} {head : Ptr} {xs : List Ptr} (new : Ptr)
    → Ring l head xs
    → new ∉ head ∷ xs
    → Ring (list_add_tail new head l) head (xs ++ new ∷ [])
list_add_tail-Ring {l} {head} {xs} new r fresh = record {
  chain = add_tail-Chain l head xs head new r.chain r.apart r.apart r.distinct (ground arith);
  apart = ground (arith, has-append head xs (new ∷ []), r.apart);
  distinct = IsDistinct-snoc xs new r.distinct (ground arith);
}

-- `list_add` puts a new entry before the first.
pub list_add-Ring :
    {l : Links} {head : Ptr} {xs : List Ptr} (new : Ptr)
    → Ring l head xs
    → new ∉ head ∷ xs
    → Ring (list_add new head l) head (new ∷ xs)
unfolding list_add
list_add-Ring {l} {head} {xs = []} new r fresh = record {
  chain = ground arith;
  apart = ground arith;
  distinct = ground arith;
}
list_add-Ring {l} {head} {xs = x ∷ xs} new r fresh = record {
  chain = (
    ground arith,
    ground arith,
    (
      ground (arith, r.chain, r.apart),
      ground (arith, r.chain, r.apart),
      Chain-frame l (list_add new head l) x xs head (λ y h. ground (arith, r.chain, r.apart))
          (λ y h. ground (arith, r.chain, r.apart, r.distinct)) r.chain.2,
    ),
  );
  apart = ground (arith, r.apart);
  distinct = ground (arith, r.distinct);
}

-- `list_del` takes an entry out, wherever it stands.
pub list_del-Ring :
    {l : Links} {head : Ptr} {xs : List Ptr} (e : Ptr)
    → Ring l head xs
    → e ∈ xs
    → Ring (list_del e l) head (erase e xs)
list_del-Ring {l} {head} {xs} e r h = record {
  chain = del-Chain l head xs head e r.chain r.apart r.apart r.distinct h;
  apart = not-has-erase head e xs r.apart;
  distinct = IsDistinct-erase e xs r.distinct;
}

-- A fresh sentinel is an empty list.
pub init_list_head-Ring : (l : Links) (head : Ptr) → Ring (init_list_head head l) head []
unfolding init_list_head
init_list_head-Ring l head = record { chain = ground arith; apart = refl; distinct = tt }

module _ {l : Links} {head : Ptr} where
  pub list_empty-is_nil : (xs : List Ptr) → Ring l head xs → list_empty head l ≡ is_nil xs
  unfolding list_empty
  list_empty-is_nil [] r = ground (arith, r.chain)
  list_empty-is_nil (x ∷ xs) r = ground (arith, r.chain, r.apart)

  -- `list_next` of the sentinel is the first entry, and NULL if there is none.
  pub list_next-first : (xs : List Ptr) → Ring l head xs → list_next head l ≡ first xs null
  unfolding list_next list_empty
  list_next-first [] r = ground (arith, r.chain)
  list_next-first (x ∷ xs) r = ground (arith, r.chain, r.apart)

  -- `list_is_only` tells whether an entry is alone in its list.
  pub list_is_only-is_single :
      (xs : List Ptr) (e : Ptr) → Ring l head xs → e ∈ xs → list_is_only e head l ≡ is_single xs
  unfolding list_is_only
  list_is_only-is_single [] e r h = ground arith
  list_is_only-is_single (x ∷ []) e r h = ground (arith, r.chain)
  list_is_only-is_single (x ∷ y ∷ xs) e r h =
      ground (arith, r.chain, r.apart, neighbours-has l x (y ∷ xs) head e r.chain.2)

-- What the operations leave alone.
pub list_add_tail-same :
    {l : Links} {head : Ptr} {xs : List Ptr} (new x : Ptr)
    → Ring l head xs
    → x ∉ head ∷ xs
    → (x == new) ≡ false
    → SameAt l (list_add_tail new head l) x
unfolding list_add_tail
list_add_tail-same {l} {head} {xs} new x r h ne = ground (arith, prev-has l head xs head r.chain)

pub list_add-same :
    {l : Links} {head : Ptr} (xs : List Ptr) (new x : Ptr)
    → Ring l head xs
    → x ∉ head ∷ xs
    → (x == new) ≡ false
    → SameAt l (list_add new head l) x
unfolding list_add
list_add-same [] new x r h ne = ground (arith, r.chain)
list_add-same (y ∷ xs) new x r h ne = ground (arith, r.chain)

pub list_del-same :
    {l : Links} {head : Ptr} {xs : List Ptr} (e x : Ptr)
    → Ring l head xs
    → e ∈ xs
    → x ∉ head ∷ xs
    → SameAt l (list_del e l) x
unfolding list_del
list_del-same {l} {head} {xs} e x r h out = ground (arith, neighbours-has l head xs head e r.chain)
