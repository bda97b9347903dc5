-- ===== src/Stock/Allocated.antt =====
-- inventory_allocation_created.py: what an allocation of an order adds, item by item.
use daemon_supply_chain.Common.{
  ℕ, ◌+◌, String, ◌≡◌, refl, sym, ap, subst, ◌∙◌, inl, inr, arith, leb, nat_eq, Bool, true, not,
  ◌&&◌, failure, Bool-cases, Option, some, Option-cases, List, [], ◌∷◌, ◌++◌, any, append_assoc,
  append_nil, All, All-append, Result, ok, err,
}
use daemon_supply_chain.Common.Stateful.{
  Stateful, pure, raise_if, continue, each, Holds, Does, Does-bind, Holds-continue,
  Does-transaction, ◌>>=◌, ◌>>◌,
}
use daemon_supply_chain.Common.Sorting.{All-sort_by, IsIn, IsIn-itself, filter-IsIn, All-mono}
use daemon_supply_chain.Stock.{Inventory, Order, OrderItem, Allocation, Db, Env, available}
use daemon_supply_chain.Stock.Queries.{given, is_empty, publish}
use daemon_supply_chain.Stock.Allocate.{
  is_available, find_available_inventory, check_existing_allocation, allocation_payload,
  allocation_row, allocate_item, items_of_order, find_order, allocate_order,
  generate_inventory_allocation_created,
}
use daemon_supply_chain.Stock.Split.{total_allocated, Splits, Gives, allocate_rows-Splits}

-- The row has what the allocation takes from it, and may be taken from.
abbrev pub backs : Order → Allocation → Inventory → Bool
backs order a row =
    is_available order.warehouse_id a.product_id row
    && nat_eq row.inventory_id a.inventory_id
    && leb a.allocated_quantity (available row)

pub record IsBacked (order : Order) (rows : List Inventory) (a : Allocation) : Type 0 where
  pub of_order : a.order_id ≡ order.order_id
  pub status : a.allocation_status ≡ "ALLOCATED"
  pub backed : any (backs order a) rows ≡ true

abbrev pub total_quantity : List OrderItem → ℕ
total_quantity [] = 0
total_quantity (i ∷ rest) = i.quantity + total_quantity rest

-- The allocations are added behind the others, the stock is untouched, the quantities add up to those
-- of the items, and a row backs each allocation.
pub record Allocates (order : Order) (quantity : ℕ) (s : Db) (allocations : List Allocation)
    (t : Db) : Type 0 where
  pub added : t.allocations ≡ s.allocations ++ allocations
  pub untouched : t.inventory ≡ s.inventory
  pub totals : total_allocated allocations ≡ quantity
  pub backed : All (IsBacked order s.inventory) allocations

total-append :
    (xs ys : List Allocation) → total_allocated (xs ++ ys) ≡ total_allocated xs + total_allocated ys
total-append [] ys = omega arith
total-append (x ∷ xs) ys = omega (arith, total-append xs ys)

all_three : (a b c : Bool) → a ≡ true → b ≡ true → c ≡ true → a && b && c ≡ true
all_three a b c h h' h'' = ground arith

joined :
    {order : Order} (s u : Db) (xs ys : List Allocation) (m n : ℕ) (t : Db)
    → Allocates order m s xs t
    → Allocates order n t ys u
    → Allocates order (m + n) s (xs ++ ys) u
joined {order} s u xs ys m n t h k = record {
  added = k.added ∙ ap (λ l. l ++ ys) h.added ∙ append_assoc s.allocations xs ys;
  untouched = k.untouched ∙ h.untouched;
  totals = omega (arith, total-append xs ys, h.totals, k.totals);
  backed =
      All-append (IsBacked order s.inventory) xs ys h.backed
        (subst (λ rows. All (IsBacked order rows) ys) h.untouched k.backed);
}

module _ (env : Env) (order : Order) where
  row-Gives :
      (product_id : String) (rows : List Inventory) (row : Inventory)
      → (is_available order.warehouse_id product_id row ≡ true) × IsIn rows row
      → Gives env order product_id (IsBacked order rows) row
  unfolding allocation_row
  row-Gives product_id rows row h quantity suffix fits = record {
    of_order = refl;
    status = refl;
    backed =
        h.1 (backs order (allocation_row env order product_id row quantity suffix))
          (all_three _ _ _ h.0 (ground arith) (ground (arith, fits)));
  }

  rows-Gives :
      (product_id : String) (s : Db)
      → All
          (Gives env order product_id (IsBacked order s.inventory))
          (find_available_inventory order.warehouse_id product_id s)
  unfolding find_available_inventory
  rows-Gives product_id s =
      All-mono _ _ (row-Gives product_id s.inventory) _
        (All-sort_by _ _ _ (filter-IsIn _ s.inventory s.inventory (IsIn-itself s.inventory)))

  allocate_item-Allocates :
      (i : OrderItem) → Does (Allocates order i.quantity) (allocate_item env order i)
  unfolding allocate_item ◌>>=◌ ◌>>◌
  allocate_item-Allocates i = record { at = λ s. by_case s }
    where
      rows_of : Db → List Inventory
      rows_of s = find_available_inventory order.warehouse_id i.product_id s

      by_split :
          (s : Db) (o : Result (List Allocation × ℕ) × Db)
          → Holds (Splits (IsBacked order s.inventory) (rows_of s) i.quantity) s o
          → Holds (Allocates order i.quantity) s (
              continue
                (λ split.
                  raise_if (not (leb split.1 0)) (failure "Insufficient inventory") >> pure split.0)
                o.0
                o.1)
      by_split s (err e, t) h = tt
      by_split s (ok r, t) h = elim (Bool-cases (leb r.1 0)) [
        | inr short ↦ rw short tt
        | inl done ↦ rw done record {
          added = h.added;
          untouched = h.untouched;
          totals = ground (arith, h.sum);
          backed = h.good;
        }
      ]

      by_case : (s : Db) → Holds (Allocates order i.quantity) s (allocate_item env order i s)
      by_case s = elim (Option-cases (check_existing_allocation order.order_id i.product_id s)) [
        | inr (a, found) ↦ rw found tt
        | inl free ↦ elim (Bool-cases (is_empty (rows_of s))) [
          | inl nothing ↦ rw (free, nothing) tt
          | inr some_rows ↦
              rw (free, some_rows)
                (by_split s _ (
                  (allocate_rows-Splits env order i.product_id (IsBacked order s.inventory)
                      (rows_of s) i.quantity (rows-Gives i.product_id s)).at
                    s))
        ]
      ]

  each-Allocates :
      (items : List OrderItem)
      → Does (Allocates order (total_quantity items)) (each (allocate_item env order) items)
  unfolding each
  each-Allocates [] = record {
    at = λ s. record {
      added = sym (append_nil s.allocations);
      untouched = refl;
      totals = refl;
      backed = tt;
    };
  }
  each-Allocates (i ∷ items) =
      Does-bind (Allocates order i.quantity)
        (λ xs t zs u.
          (ys : List Allocation) × Allocates order (total_quantity items) t ys u × (zs ≡ xs ++ ys))
        _ _ _ (allocate_item-Allocates i)
        (λ xs.
          Does-bind (Allocates order (total_quantity items))
            (λ ys t zs u. (t ≡ u) × (zs ≡ xs ++ ys)) _ _ _ (each-Allocates items)
            (λ ys. record { at = λ s. (refl, refl) })
            λ s ys t zs u h e. (ys, subst (Allocates order (total_quantity items) s ys) e.0 h, e.1))
        λ s xs t zs u h k.
          subst (λ l. Allocates order (i.quantity + total_quantity items) s l u) (sym k.2)
            (joined s u xs k.0 i.quantity (total_quantity items) t h k.1)

  -- The event is published, and the allocations are returned.
  abbrev announce : List Allocation → Stateful Db (String × List Allocation)
  announce allocations =
      publish env "InventoryAllocationCreated" "ORDER" order.order_id order.correlation_id
        (allocation_payload env order allocations)
      >> pure (order.order_id, allocations)

  IsAnnounced : List Allocation → Db → String × List Allocation → Db → Type 0
  IsAnnounced xs t r u =
      (r ≡ (order.order_id, xs)) × (u.allocations ≡ t.allocations) × (u.inventory ≡ t.inventory)

  announce-IsAnnounced : (xs : List Allocation) → Does (IsAnnounced xs) (announce xs)
  unfolding publish IsAnnounced ◌>>=◌ ◌>>◌
  announce-IsAnnounced xs = record { at = λ s. by_result s _ _ refl refl }
    where
      by_result :
          (s : Db) (r : Result String) (t : Db)
          → t.allocations ≡ s.allocations
          → t.inventory ≡ s.inventory
          → Holds (IsAnnounced xs) s (continue (λ id. pure (order.order_id, xs)) r t)
      by_result s (ok id) t a i = (refl, a, i)
      by_result s (err e) t a i = tt

-- What an allocation of an order that returns has found and done.
pub record IsAllocation (order_id : Option String) (s : Db) (r : String × List Allocation) (t : Db)
    : Type 0 where
  pub order : Order
  pub found : find_order order_id s ≡ some order
  pub id : r.0 ≡ order.order_id
  pub allocates : Allocates order (total_quantity (items_of_order order.order_id s)) s r.1 t

module _ (env : Env) (order_id : Option String) (s : Db) (order : Order)
    (found : find_order order_id s ≡ some order) where
  announced :
      (xs : List Allocation) (t u : Db) (r : String × List Allocation)
      → Allocates order (total_quantity (items_of_order order.order_id s)) s xs t
      → IsAnnounced env order xs t r u
      → IsAllocation order_id s r u
  unfolding IsAnnounced
  announced xs t u r h k = record {
    order = order;
    found = found;
    id = ap (λ (p : String × List Allocation). p.0) k.0;
    allocates =
        subst (λ l. Allocates order (total_quantity (items_of_order order.order_id s)) s l u)
          (sym (ap (λ (p : String × List Allocation). p.1) k.0))
          record {
            added = k.1 ∙ h.added;
            untouched = k.2 ∙ h.untouched;
            totals = h.totals;
            backed = h.backed;
          };
  }

allocate_order-IsAllocation :
    (env : Env) (order_id : Option String)
    → Does (IsAllocation order_id) (allocate_order env order_id)
unfolding allocate_order ◌>>=◌ ◌>>◌
allocate_order-IsAllocation env order_id = record { at = λ s. by_order s }
  where
    by_order : (s : Db) → Holds (IsAllocation order_id) s (allocate_order env order_id s)
    by_order s = elim (Option-cases (find_order order_id s)) [
      | inl missing ↦ rw missing tt
      | inr (order, found) ↦ elim (Bool-cases (is_empty (items_of_order order.order_id s))) [
        | inl nothing ↦ rw (found, nothing) tt
        | inr some_items ↦
            rw (found, some_items)
              (Holds-continue (Allocates order (total_quantity (items_of_order order.order_id s)))
                (IsAnnounced env order) (IsAllocation order_id) s _ _ _
                ((each-Allocates env order (items_of_order order.order_id s)).at s)
                (announce-IsAnnounced env order)
                λ xs r u h k. announced env order_id s order found xs _ u r h k)
      ]
    ]

-- Where an allocation returns, it found an order that may be allocated, left the stock as it was,
-- and added exactly the allocations that it returns; their quantities add up to those of the
-- order's items, and each is of the order, has the status ALLOCATED and no more than an available
-- row of its product and warehouse has.
pub generate_inventory_allocation_created-IsAllocation :
    (env : Env) (order_id : Option String)
    → Does (IsAllocation (given order_id)) (generate_inventory_allocation_created env order_id)
unfolding generate_inventory_allocation_created
generate_inventory_allocation_created-IsAllocation env order_id =
    Does-transaction _ _ (allocate_order-IsAllocation env (given order_id))
