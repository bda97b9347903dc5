-- ===== src/Stock/Split.antt =====
-- inventory_allocation_created.py: how the quantity of one product is split over the locations.
use daemon_supply_chain.Common.{
  ℕ, ◌+◌, ◌-◌, ◌≤◌, String, ◌≡◌, refl, sym, ◌∙◌, inl, inr, arith, leb, Bool-cases, any, List, [],
  ◌∷◌, ◌++◌, append_assoc, append_nil, All, Result, ok, err,
}
use daemon_supply_chain.Common.Stateful.{pure, continue, Holds, Does, ◌>>=◌, ◌>>◌}
use daemon_supply_chain.Stock.{Inventory, Order, Allocation, Db, Env, available}
use daemon_supply_chain.Stock.Queries.{has_allocation_id, insert_allocation}
use daemon_supply_chain.Stock.Allocate.{min, allocation_row, create_allocation, allocate_rows}

-- What is allocated, and what there is.
abbrev pub total_allocated : List Allocation → ℕ
total_allocated [] = 0
total_allocated (a ∷ rest) = a.allocated_quantity + total_allocated rest

abbrev pub total_available : List Inventory → ℕ
total_available [] = 0
total_available (row ∷ rows) = available row + total_available rows

-- The loop over `rows` for a quantity: its allocations are added, the stock is untouched, what is
-- allocated and what is missing make up the quantity, and nothing is missing that there is.
pub record Splits (P : Allocation → Type 0) (rows : List Inventory) (remaining_qty : ℕ) (s : Db)
    (r : List Allocation × ℕ) (t : Db) : Type 0 where
  pub added : t.allocations ≡ s.allocations ++ r.0
  pub untouched : t.inventory ≡ s.inventory
  pub sum : total_allocated r.0 + r.1 ≡ remaining_qty
  pub missing : r.1 ≡ remaining_qty - total_available rows
  pub good : All P r.0

module _ (env : Env) (order : Order) (product_id : String) (P : Allocation → Type 0) where
  -- Every allocation from the row, of no more than the row has, is good.
  abbrev pub Gives : Inventory → Type 0
  Gives row =
      (quantity : ℕ) (suffix : String)
      → quantity ≤ available row
      → P (allocation_row env order product_id row quantity suffix)

  Splits-nil :
      (rows : List Inventory) (remaining_qty : ℕ) (s : Db)
      → remaining_qty - total_available rows ≡ remaining_qty
      → Splits P rows remaining_qty s ([], remaining_qty) s
  Splits-nil rows remaining_qty s h = record {
    added = sym (append_nil s.allocations);
    untouched = refl;
    sum = omega arith;
    missing = sym h;
    good = tt;
  }

  module _ (row : Inventory) (rows : List Inventory) (remaining_qty : ℕ) (s : Db) (drawn : ℕ)
      (a : Allocation) (gives : P a)
      (taken : a.allocated_quantity ≡ min (available row) remaining_qty) where
    with_row :
        (o : Result (List Allocation × ℕ) × Db)
        → Holds
            (Splits P rows (remaining_qty - a.allocated_quantity))
            (record s { allocations = s.allocations ++ a ∷ []; drawn = drawn })
            o
        → Holds
            (Splits P (row ∷ rows) remaining_qty)
            s
            (continue (λ (rest : List Allocation × ℕ). pure (a ∷ rest.0, rest.1)) o.0 o.1)
    with_row (err e, t) h = tt
    with_row (ok r, t) h = record {
      added = h.added ∙ append_assoc s.allocations (a ∷ []) r.0;
      untouched = h.untouched;
      sum = ground (arith, taken, h.sum);
      missing = ground (arith, taken, h.missing);
      good = (gives, h.good);
    }

  -- Where the loop over the locations returns, what it allocated and what is missing make up the
  -- quantity asked for, what is missing is the quantity less all that the rows have, the stock is
  -- untouched, exactly the allocations returned were added, and each has what holds of every
  -- allocation from one of the rows of no more than the row has.
  pub allocate_rows-Splits :
      (rows : List Inventory) (remaining_qty : ℕ)
      → All Gives rows
      → Does (Splits P rows remaining_qty) (allocate_rows env order product_id rows remaining_qty)
  unfolding allocate_rows create_allocation insert_allocation allocation_row ◌>>=◌ ◌>>◌
  allocate_rows-Splits [] remaining_qty g = record {
    at = λ s. Splits-nil [] remaining_qty s (omega arith);
  }
  allocate_rows-Splits (row ∷ rows) remaining_qty g = record {
    at = λ s. by_case s (allocate_rows-Splits rows _ g.1);
  }
    where
      row_of : Db → Allocation
      row_of s =
          allocation_row env order product_id row (min (available row) remaining_qty)
            (env.fresh s.drawn)

      by_case :
          (s : Db)
          → Does (Splits P rows (remaining_qty - min (available row) remaining_qty)) (
              allocate_rows env order product_id rows
                (remaining_qty - min (available row) remaining_qty))
          → Holds
              (Splits P (row ∷ rows) remaining_qty)
              s
              (allocate_rows env order product_id (row ∷ rows) remaining_qty s)
      by_case s rest = elim (Bool-cases (leb remaining_qty 0)) [
        | inl done ↦ rw done (Splits-nil (row ∷ rows) remaining_qty s (ground arith))
        | inr more ↦
            elim (Bool-cases (any (has_allocation_id (row_of s).allocation_id) s.allocations)) [
              | inl taken ↦ rw (more, taken) tt
              | inr free ↦
                  rw (more, free)
                    (with_row row rows remaining_qty s _ (row_of s) (g.0 _ _ (ground arith)) refl _
                      (rest.at _))
            ]
      ]
