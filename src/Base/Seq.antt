-- ===== src/Base/Seq.antt =====
-- Finite sequences of addresses: membership as a test, distinctness, removal, the last element.
use mathlib.Core.Path.{◌≡◌, refl}
use mathlib.Core.Bool.{Bool, true, false, ◌||◌}
use mathlib.Core.List.{List, [], ◌∷◌, ◌++◌}
use mathlib.Core.Logic.{◌⊎◌, inl, inr}
use Prim.Native.Nat.{ℕ, suc, ◌+◌, ◌≤◌}
use os_unibo.Base.Tests.{◌==◌, if◌then◌else◌}
use native.Mathlib.Omega.{arith}

abbrev pub length {ℓ} : {A : Type ℓ} → List A → ℕ
length [] = 0
length (x ∷ xs) = suc (length xs)

abbrev pub has : ℕ → List ℕ → Bool
has a [] = false
has a (x ∷ xs) = (a == x) || has a xs

infix 40 ◌∈◌ ◌∉◌
abbrev pub ◌∈◌ : ℕ → List ℕ → Type 0
a ∈ xs = has a xs ≡ true

abbrev pub ◌∉◌ : ℕ → List ℕ → Type 0
a ∉ xs = has a xs ≡ false

abbrev pub IsDistinct : List ℕ → Type 0
IsDistinct [] = Unit {0}
IsDistinct (x ∷ xs) = (x ∉ xs) × IsDistinct xs

-- The sequence less the first place at which `a` stands.
unfoldable pub erase : ℕ → List ℕ → List ℕ
erase a [] = []
erase a (x ∷ xs) = if a == x then xs else x ∷ erase a xs

pub has-append : (a : ℕ) (xs ys : List ℕ) → has a (xs ++ ys) ≡ (has a xs || has a ys)
has-append a [] ys = refl
has-append a (x ∷ xs) ys = ground (arith, has-append a xs ys)

pub IsDistinct-snoc : (xs : List ℕ) (a : ℕ) → IsDistinct xs → a ∉ xs → IsDistinct (xs ++ a ∷ [])
IsDistinct-snoc [] a d h = (refl, tt)
IsDistinct-snoc (x ∷ xs) a d h = ground (arith, has-append x xs (a ∷ []), IsDistinct-snoc xs a d.1)

pub not-has-erase : (a b : ℕ) (xs : List ℕ) → a ∉ xs → a ∉ erase b xs
unfolding erase
not-has-erase a b [] h = refl
not-has-erase a b (x ∷ xs) h = ground (arith, not-has-erase a b xs)

pub has-erase :
    (a b : ℕ) (xs : List ℕ)
    → IsDistinct xs
    → has a (erase b xs) ≡ (if a == b then false else has a xs)
unfolding erase
has-erase a b [] d = ground arith
has-erase a b (x ∷ xs) d = ground (arith, has-erase a b xs d.1)

pub IsDistinct-erase : (b : ℕ) (xs : List ℕ) → IsDistinct xs → IsDistinct (erase b xs)
unfolding erase
IsDistinct-erase b [] d = tt
IsDistinct-erase b (x ∷ xs) d = ground (arith, IsDistinct-erase b xs d.1, not-has-erase x b xs)

pub length-append {ℓ} : {A : Type ℓ} (xs ys : List A) → length (xs ++ ys) ≡ length xs + length ys
length-append [] ys = omega arith
length-append (x ∷ xs) ys = omega (arith, length-append xs ys)

pub length-erase : (a : ℕ) (xs : List ℕ) → a ∈ xs → suc (length (erase a xs)) ≡ length xs
unfolding erase
length-erase a [] h = ground arith
length-erase a (x ∷ xs) h = ground (arith, length-erase a xs)

pub nil_of_none : (xs : List ℕ) → ((a : ℕ) → a ∈ xs → ⊥) → xs ≡ []
nil_of_none [] h = refl
nil_of_none (x ∷ xs) h = absurd (h x (ground arith))

-- A new last entry is the one that its removal takes away.
pub erase-snoc : (a : ℕ) (xs : List ℕ) → a ∉ xs → erase a (xs ++ a ∷ []) ≡ xs
unfolding erase
erase-snoc a [] h = ground arith
erase-snoc a (x ∷ xs) h = ground (arith, erase-snoc a xs)

pub length-le-erase : (a : ℕ) (xs : List ℕ) → length xs ≤ suc (length (erase a xs))
unfolding erase
length-le-erase a [] = omega arith
length-le-erase a (x ∷ xs) = ground (arith, length-le-erase a xs)

-- Distinct entries of a list are no more than its entries.
pub length-le-within :
    (xs ys : List ℕ)
    → IsDistinct xs
    → IsDistinct ys
    → ((a : ℕ) → a ∈ xs → a ∈ ys)
    → length xs ≤ length ys
length-le-within [] ys dx dy h = omega arith
length-le-within (x ∷ xs) ys dx dy h =
    let fewer =
      length-le-within xs (erase x ys) dx.1 (IsDistinct-erase x ys dy)
        (λ a i. ground (arith, has-erase a x ys dy, h a, dx.0)) in
    omega (arith, fewer, length-erase x ys (h x (ground arith)))

pub uncons : (xs : List ℕ) → (xs ≡ [] → ⊥) → (x : ℕ) × (rest : List ℕ) × (xs ≡ x ∷ rest)
uncons [] h = absurd (h refl)
uncons (x ∷ xs) h = (x, xs, refl)

pub nil_or_cons : (xs : List ℕ) → (xs ≡ []) ⊎ ((x : ℕ) × (rest : List ℕ) × (xs ≡ x ∷ rest))
nil_or_cons [] = inl refl
nil_or_cons (x ∷ xs) = inr (x, xs, refl)
