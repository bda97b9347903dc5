-- ===== src/Stock/Chosen.antt =====
-- What the rows of a query all have, the row that it gives has.
use daemon_supply_chain.Common.{ℕ, zero, suc, ◌≡◌, subst, arith, some, List, [], ◌∷◌, All}
use daemon_supply_chain.Stock.Queries.{first, one_of, nth_from}

nth-All :
    {A : Type 0} (P : A → Type 0) (x : A) (xs : List A) (n : ℕ)
    → P x
    → All P xs
    → P (nth_from x xs n)
nth-All P x [] n h k = h
nth-All P x (y ∷ ys) zero h k = h
nth-All P x (y ∷ ys) (suc n) h k = nth-All P y ys n k.0 k.1

pub one_of-All :
    {A : Type 0} (P : A → Type 0) (xs : List A) (n : ℕ) (x : A)
    → All P xs
    → one_of n xs ≡ some x
    → P x
one_of-All P [] n x h e = cc
one_of-All P (y ∷ ys) n x h e =
    let same : nth_from y ys n ≡ x = ground arith in subst P same (nth-All P y ys n h.0 h.1)

pub first-All :
    {A : Type 0} (P : A → Type 0) (xs : List A) (x : A) → All P xs → first xs ≡ some x → P x
first-All P [] x h e = cc
first-All P (y ∷ ys) x h e = let same : y ≡ x = cc in subst P same h.0
