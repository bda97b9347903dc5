-- ===== src/Common/Sorting.antt =====
-- Lists ordered by a Boolean test, and what ordering and filtering keep.
use mathlib.Core.Path.{◌≡◌, refl, ap, ◌∙◌}
use mathlib.Core.Logic.{inl, inr}
use mathlib.Core.Bool.{Bool, true, ◌&&◌, ◌||◌}
use mathlib.Core.List.{List, [], ◌∷◌}
use native.Mathlib.Omega.{arith}
use daemon_supply_chain.Common.Tests.{Bool-cases, if◌then◌else◌}
use daemon_supply_chain.Common.Lists.{All, any, filter}

module _ {ℓ} {A : Type ℓ} where
  abbrev pub insert_by : (A → A → Bool) → A → List A → List A
  insert_by le x [] = x ∷ []
  insert_by le x (y ∷ ys) = let rest = insert_by le x ys in if le x y then x ∷ y ∷ ys else y ∷ rest

  -- `ORDER BY`
  abbrev pub sort_by : (A → A → Bool) → List A → List A
  sort_by le [] = []
  sort_by le (x ∷ xs) = insert_by le x (sort_by le xs)

module _ {A : Type 0} (P : A → Type 0) (le : A → A → Bool) where
  All-insert_by : (x : A) (ys : List A) → P x → All P ys → All P (insert_by le x ys)
  All-insert_by x [] h k = (h, tt)
  All-insert_by x (y ∷ ys) h k = elim (Bool-cases (le x y)) [
    | inl before ↦ rw before (h, k)
    | inr behind ↦ rw behind (k.0, All-insert_by x ys h k.1)
  ]

  pub All-sort_by : (xs : List A) → All P xs → All P (sort_by le xs)
  All-sort_by [] h = tt
  All-sort_by (x ∷ xs) h = All-insert_by x (sort_by le xs) h.0 (All-sort_by xs h.1)

module _ {A : Type 0} where
  -- Every test that the element passes, one of the list passes.
  abbrev pub IsIn : List A → A → Type 0
  IsIn whole x = (q : A → Bool) → q x ≡ true → any q whole ≡ true

  IsIn-weaken : (f : A) (whole xs : List A) → All (IsIn whole) xs → All (IsIn (f ∷ whole)) xs
  IsIn-weaken f whole [] h = tt
  IsIn-weaken f whole (x ∷ xs) h = (λ q e. ground (arith, h.0 q e), IsIn-weaken f whole xs h.1)

  pub IsIn-itself : (xs : List A) → All (IsIn xs) xs
  IsIn-itself [] = tt
  IsIn-itself (x ∷ xs) = (λ q e. ground arith, IsIn-weaken x xs xs (IsIn-itself xs))

  pub filter-IsIn :
      (p : A → Bool) (whole xs : List A)
      → All (IsIn whole) xs
      → All (λ x. (p x ≡ true) × IsIn whole x) (filter p xs)
  filter-IsIn p whole [] h = tt
  filter-IsIn p whole (x ∷ xs) h = elim (Bool-cases (p x)) [
    | inl passes ↦ rw passes ((passes, h.0), filter-IsIn p whole xs h.1)
    | inr fails ↦ rw fails (filter-IsIn p whole xs h.1)
  ]

pub All-mono :
    {A : Type 0} (P Q : A → Type 0) → ((x : A) → P x → Q x) → (xs : List A) → All P xs → All Q xs
All-mono P Q f [] h = tt
All-mono P Q f (x ∷ xs) h = (f x h.0, All-mono P Q f xs h.1)

module _ {A : Type 0} (q : A → Bool) (le : A → A → Bool) where
  any-insert_by : (x : A) (xs : List A) → any q (insert_by le x xs) ≡ (q x || any q xs)
  any-insert_by x [] = refl
  any-insert_by x (y ∷ ys) = elim (Bool-cases (le x y)) [
    | inl before ↦ rw before refl
    | inr behind ↦ rw behind (ground (arith, any-insert_by x ys))
  ]

  pub any-sort_by : (xs : List A) → any q (sort_by le xs) ≡ any q xs
  any-sort_by [] = refl
  any-sort_by (x ∷ xs) = any-insert_by x (sort_by le xs) ∙ ap (λ b. q x || b) (any-sort_by xs)

any_both :
    {A : Type 0} (p q : A → Bool) (xs : List A)
    → any (λ y. p y && q y) xs ≡ true
    → any q (filter p xs) ≡ true
any_both p q [] e = cc
any_both p q (y ∷ ys) e = elim (Bool-cases (p y)) [
  | inl passes ↦ rw passes (ground (arith, any_both p q ys))
  | inr fails ↦ rw fails (any_both p q ys (ground (arith, rw fails at e)))
]

pub any-filter :
    {A : Type 0} (p q : A → Bool) (x : A) (xs : List A)
    → IsIn xs x
    → p x ≡ true
    → q x ≡ true
    → any q (filter p xs) ≡ true
any-filter p q x xs i h k = any_both p q xs (i (λ y. p y && q y) (ground arith))

-- What holds of the rows holds of those that pass a test, with the test.
pub All-filter_passes :
    {A : Type 0} (P : A → Type 0) (q : A → Bool) (xs : List A)
    → All P xs
    → All (λ x. P x × (q x ≡ true)) (filter q xs)
All-filter_passes P q [] h = tt
All-filter_passes P q (x ∷ xs) h = elim (Bool-cases (q x)) [
  | inl passes ↦ rw passes ((h.0, passes), All-filter_passes P q xs h.1)
  | inr fails ↦ rw fails (All-filter_passes P q xs h.1)
]
