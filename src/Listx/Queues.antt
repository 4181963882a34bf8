-- ===== src/Listx/Queues.antt =====
-- A memory full of lists: every sentinel owns a sequence of entries, and no entry is in two lists.
-- The operations of listx.h move entries between these sequences and disturb no other.
use os_unibo.Base.{
  Ptr, update, ◌≡◌, subst, Bool, true, false, ◌||◌, inl, inr, List, [], ◌∷◌, ◌++◌, arith, ◌==◌,
  Bool-cases, has, ◌∈◌, ◌∉◌, erase, has-append, has-erase,
}
use os_unibo.Listx.{Links, init_list_head, list_add, list_add_tail, list_del}
use os_unibo.Listx.Ring.{
  Ring, Ring-frame, list_add-Ring, list_add_tail-Ring, list_del-Ring, init_list_head-Ring,
  list_add-same, list_add_tail-same, list_del-same,
}
use os_unibo.Listx.Chain.{SameAt}

-- `is_head` tells which addresses are sentinels, `q` what their lists hold.
pub record Linked (is_head : Ptr → Bool) (l : Links) (q : Ptr → List Ptr) : Type 0 where
  pub ring : (h : Ptr) → is_head h ≡ true → Ring l h (q h)
  pub entry : (h a : Ptr) → is_head h ≡ true → a ∈ q h → is_head a ≡ false
  pub unique : (h k a : Ptr) → is_head h ≡ true → is_head k ≡ true → a ∈ q h → a ∈ q k → h ≡ k

-- `a` is neither a sentinel nor in a list.
pub record IsLoose (is_head : Ptr → Bool) (q : Ptr → List Ptr) (a : Ptr) : Type 0 where
  pub not_head : is_head a ≡ false
  pub not_in : (h : Ptr) → is_head h ≡ true → a ∉ q h

module _ {is_head : Ptr → Bool} {l l' : Links} {q : Ptr → List Ptr} (linked : Linked is_head l q)
    (h : Ptr) (is : is_head h ≡ true) (xs : List Ptr) where
  -- One list changes to `xs`, whose entries were its own or loose.
  pub Linked-update :
      Ring l' h xs
      → ((a : Ptr) → a ∈ xs → is_head a ≡ false)
      → ((a k : Ptr) → a ∈ xs → is_head k ≡ true → a ∈ q k → k ≡ h)
      → ((x : Ptr) → x ∉ h ∷ q h → x ∉ xs → SameAt l l' x)
      → Linked is_head l' (update q h xs)
  Linked-update r inside alone same = record {
    ring = λ k ik. elim (Bool-cases (k == h)) [
      | inl e ↦ rw e (subst (λ k. Ring l' k xs) (ground arith) r)
      | inr e ↦
          rw e (
            Ring-frame (λ x hx. same x (apart k x ik e hx) (spared k x ik e hx)) (linked.ring k ik))
    ];
    entry = λ k a ik m. ground (arith, inside a, linked.entry k a);
    unique = λ k j a ik ij m n. ground (arith, alone a k, alone a j, linked.unique k j a);
  }
    where
      apart : (k x : Ptr) → is_head k ≡ true → (k == h) ≡ false → x ∈ k ∷ q k → x ∉ h ∷ q h
      apart k x ik e hx =
          ground (arith, linked.entry h x is, linked.entry k x ik, linked.unique k h x ik is)

      spared : (k x : Ptr) → is_head k ≡ true → (k == h) ≡ false → x ∈ k ∷ q k → x ∉ xs
      spared k x ik e hx = ground (arith, inside x, alone x k)

module _ {is_head : Ptr → Bool} {l : Links} {q : Ptr → List Ptr} (linked : Linked is_head l q) where
  loose_apart : (h new : Ptr) → is_head h ≡ true → IsLoose is_head q new → new ∉ h ∷ q h
  loose_apart h new is loose = ground (arith, loose.not_head, loose.not_in h is)

  -- `list_add_tail` puts an address that is neither a sentinel nor in a list at the end of the list
  -- of `h`, and leaves every other list of the memory as it was.
  pub list_add_tail-Linked :
      (new h : Ptr)
      → is_head h ≡ true
      → IsLoose is_head q new
      → Linked is_head (list_add_tail new h l) (update q h (q h ++ new ∷ []))
  list_add_tail-Linked new h is loose =
      Linked-update linked h is (q h ++ new ∷ [])
        (list_add_tail-Ring new (linked.ring h is) (loose_apart h new is loose))
        (λ a m. ground (arith, has-append a (q h) (new ∷ []), linked.entry h a is, loose.not_head))
        (λ a k m ik n.
          ground
            (arith, has-append a (q h) (new ∷ []), linked.unique k h a ik is, loose.not_in k ik))
        (λ x out m.
          list_add_tail-same new x (linked.ring h is) out
            (ground (arith, has-append x (q h) (new ∷ []))))

  pub list_add-Linked :
      (new h : Ptr)
      → is_head h ≡ true
      → IsLoose is_head q new
      → Linked is_head (list_add new h l) (update q h (new ∷ q h))
  list_add-Linked new h is loose =
      Linked-update linked h is (new ∷ q h)
        (list_add-Ring new (linked.ring h is) (loose_apart h new is loose))
        (λ a m. ground (arith, linked.entry h a is, loose.not_head))
        (λ a k m ik n. ground (arith, linked.unique k h a ik is, loose.not_in k ik))
        (λ x out m. list_add-same (q h) new x (linked.ring h is) out (ground arith))

  -- `list_del` takes an entry out of its list, wherever it stands there, and leaves every other list
  -- of the memory as it was.
  pub list_del-Linked :
      (e h : Ptr)
      → is_head h ≡ true
      → e ∈ q h
      → Linked is_head (list_del e l) (update q h (erase e (q h)))
  list_del-Linked e h is m =
      Linked-update linked h is (erase e (q h)) (list_del-Ring e (linked.ring h is) m)
        (λ a n.
          ground (arith, has-erase a e (q h) (linked.ring h is).distinct, linked.entry h a is))
        (λ a k n ik o.
          ground
            (arith, has-erase a e (q h) (linked.ring h is).distinct, linked.unique k h a ik is))
        (λ x out n. list_del-same e x (linked.ring h is) m out)

  -- An entry that was taken out is loose.
  pub list_del-IsLoose :
      (e h : Ptr) → is_head h ≡ true → e ∈ q h → IsLoose is_head (update q h (erase e (q h))) e
  list_del-IsLoose e h is m = record {
    not_head = linked.entry h e is m;
    not_in = λ k ik. ground (
      arith,
      has-erase e e (q h) (linked.ring h is).distinct,
      Bool-cases (has e (q k)),
      linked.unique k h e ik is,
    );
  }

  -- A loose address becomes the sentinel of an empty list.
  pub init_list_head-Linked :
      (h : Ptr)
      → IsLoose is_head q h
      → Linked (λ x. x == h || is_head x) (init_list_head h l) (update q h [])
  unfolding init_list_head
  init_list_head-Linked h loose = record {
    ring = λ k ik. elim (Bool-cases (k == h)) [
      | inl e ↦
          rw e
            (subst (λ k. Ring (init_list_head h l) k []) (ground arith) (init_list_head-Ring l h))
      | inr e ↦
          rw e (Ring-frame (λ x hx. ground (arith, loose.not_in k)) (linked.ring k (ground arith)))
    ];
    entry = λ k a ik m. ground (arith, linked.entry k a, loose.not_in k);
    unique = λ k j a ik ij m n. ground (arith, linked.unique k j a);
  }

  -- Taking an entry out keeps what is loose.
  pub IsLoose-del :
      (e h a : Ptr)
      → is_head h ≡ true
      → IsLoose is_head q a
      → IsLoose is_head (update q h (erase e (q h))) a
  IsLoose-del e h a is loose = record {
    not_head = loose.not_head;
    not_in =
        λ k ik. ground (arith, loose.not_in k ik, has-erase a e (q h) (linked.ring h is).distinct);
  }
