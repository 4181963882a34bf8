-- ===== src/Ssi/Sound/Rank.antt =====
-- The place of a process in the order in which the processes were created.
use os_unibo.Base.{
  ◌≡◌, ◌≢◌, ◌≤◌, ◌<◌, refl, ℕ, suc, List, [], ◌∷◌, ◌++◌, ◌∈◌, arith, has, erase, length,
  length-append, ◌==◌, if◌then◌else◌,
}

-- How many entries there are from `p` on.
unfoldable pub rank_in : List ℕ → ℕ → ℕ
rank_in [] p = 0
rank_in (x ∷ xs) p = if x == p then suc (length xs) else rank_in xs p

pub rank_in-le : (xs : List ℕ) (p : ℕ) → rank_in xs p ≤ length xs
unfolding rank_in
rank_in-le [] p = omega arith
rank_in-le (x ∷ xs) p = ground (arith, rank_in-le xs p)

pub rank_in-pos : (xs : List ℕ) (p : ℕ) → p ∈ xs → 0 < rank_in xs p
unfolding rank_in
rank_in-pos [] p i = ground arith
rank_in-pos (x ∷ xs) p i = ground (arith, rank_in-pos xs p)

pub rank_in-none : (xs : List ℕ) (p : ℕ) → 0 < rank_in xs p → p ∈ xs
unfolding rank_in
rank_in-none [] p i = absurd (omega arith)
rank_in-none (x ∷ xs) p i = ground (arith, rank_in-none xs p)

-- A new last entry puts the others one higher.
pub rank_in-snoc :
    (xs : List ℕ) (n p : ℕ)
    → rank_in (xs ++ n ∷ []) p
      ≡ (if has p xs then suc (rank_in xs p) else (if n == p then 1 else 0))
unfolding rank_in
rank_in-snoc [] n p = refl
rank_in-snoc (x ∷ xs) n p = ground (arith, rank_in-snoc xs n p, length-append xs (n ∷ []))

-- The removal of another entry keeps the order.
pub rank_in-erase :
    (n : ℕ) (xs : List ℕ) (a b : ℕ)
    → a ≢ n
    → b ≢ n
    → rank_in xs a < rank_in xs b
    → rank_in (erase n xs) a < rank_in (erase n xs) b
unfolding rank_in erase
rank_in-erase n [] a b na nb l = absurd (omega arith)
rank_in-erase n (x ∷ xs) a b na nb l =
    ground (arith, rank_in-erase n xs a b na nb, rank_in-le xs b, rank_in-le (erase n xs) a)
