-- ===== src/Stock/Reserved.antt =====
-- inventory_reserved.py: what a reservation writes.
use daemon_supply_chain.Common.{
  String, ◌≡◌, refl, ap, ◌∙◌, inl, inr, Option, some, Option-cases, List, length, Result, ok, err,
}
use daemon_supply_chain.Common.Stateful.{
  pure, continue, Holds, Does, Holds-continue, Does-transaction, ◌>>=◌, ◌>>◌,
}
use daemon_supply_chain.Stock.{Allocation, Db, Env}
use daemon_supply_chain.Stock.Queries.{given, first, publish}
use daemon_supply_chain.Stock.Reserve.{
  find_allocated, reservation_payload, reserve_order, generate_inventory_reserved,
}
use daemon_supply_chain.Stock.Rounds.{Reserves, IsRun, each-IsRun}

module _ (env : Env) (order_id correlation_id : String) where
  IsAnnounced : List Allocation → Db → String × List Allocation → Db → Type 0
  IsAnnounced xs t r u =
      (r ≡ (order_id, xs))
      × (u.allocations ≡ t.allocations)
      × (u.reservations ≡ t.reservations)
      × (u.transactions ≡ t.transactions)

  announce-IsAnnounced :
      (head : Allocation) (xs : List Allocation)
      → Does (IsAnnounced xs) (
          publish env "InventoryReserved" "ORDER" order_id correlation_id
            (reservation_payload env head xs)
          >> pure (order_id, xs))
  unfolding publish IsAnnounced ◌>>=◌ ◌>>◌
  announce-IsAnnounced head xs = record { at = λ s. by_result s _ _ refl refl refl }
    where
      by_result :
          (s : Db) (r : Result String) (t : Db)
          → t.allocations ≡ s.allocations
          → t.reservations ≡ s.reservations
          → t.transactions ≡ s.transactions
          → Holds (IsAnnounced xs) s (continue (λ id. pure (order_id, xs)) r t)
      by_result s (ok id) t a i j = (refl, a, i, j)
      by_result s (err e) t a i j = tt

-- What a reservation that returns has found and done; the first allocation gives the order.
pub record IsReservation (env : Env) (order_id : Option String) (s : Db)
    (r : String × List Allocation) (t : Db) : Type 0 where
  pub head : Allocation
  pub found : first (find_allocated env order_id s) ≡ some head
  pub result : r ≡ (head.order_id, find_allocated env order_id s)
  pub reserves : Reserves head.order_id head.correlation_id (find_allocated env order_id s) s t

module _ (env : Env) (order_id : Option String) (s : Db) (head : Allocation)
    (found : first (find_allocated env order_id s) ≡ some head) where
  announced :
      (xs : List Allocation) (t u : Db) (r : String × List Allocation)
      → IsRun env head.order_id head.correlation_id (find_allocated env order_id s) s xs t
      → IsAnnounced env head.order_id head.correlation_id xs t r u
      → IsReservation env order_id s r u
  unfolding IsAnnounced IsRun
  announced xs t u r h k = record {
    head = head;
    found = found;
    result = k.0 ∙ ap (λ l. (head.order_id, l)) h.0;
    reserves = record {
      marked = k.1 ∙ h.1.marked;
      reservations = ap length k.2 ∙ h.1.reservations;
      transactions = k.3 ∙ h.1.transactions;
    };
  }

reserve_order-IsReservation :
    (env : Env) (order_id : Option String)
    → Does (IsReservation env order_id) (reserve_order env order_id)
unfolding reserve_order ◌>>=◌ ◌>>◌
reserve_order-IsReservation env order_id = record { at = λ s. by_head s }
  where
    by_head : (s : Db) → Holds (IsReservation env order_id) s (reserve_order env order_id s)
    by_head s = elim (Option-cases (first (find_allocated env order_id s))) [
      | inl missing ↦ rw missing tt
      | inr (head, found) ↦ rw found (
          Holds-continue
            (IsRun env head.order_id head.correlation_id (find_allocated env order_id s))
            (IsAnnounced env head.order_id head.correlation_id) (IsReservation env order_id) s _ _ _
            ((each-IsRun env head.order_id head.correlation_id (find_allocated env order_id s)).at
              s)
            (announce-IsAnnounced env head.order_id head.correlation_id head)
            λ xs r u h k. announced env order_id s head found xs _ u r h k)
    ]

-- Where a reservation returns, it reserved exactly the allocations that its query lists, in their
-- order: these have the status RESERVED and all others stay, there is one reservation more for
-- each, and one transaction for each was added with its row and its quantity, all under the order
-- of the first.
pub generate_inventory_reserved-IsReservation :
    (env : Env) (order_id : Option String)
    → Does (IsReservation env (given order_id)) (generate_inventory_reserved env order_id)
unfolding generate_inventory_reserved
generate_inventory_reserved-IsReservation env order_id =
    Does-transaction _ _ (reserve_order-IsReservation env (given order_id))
