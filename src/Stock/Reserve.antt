-- ===== src/Stock/Reserve.antt =====
-- simulator/generators/inventory/inventory_reserved.py
use Prim.Native.String.{◌++◌ as text_append}
use daemon_supply_chain.Common.{
  ℕ, ◌+◌, String, ◌==◌, leb, Bool, ◌&&◌, Option, none, some, List, [], ◌∷◌, filter, find, failure,
}
use daemon_supply_chain.Common.Stateful.{
  Stateful, pure, gets, or_raise, raise_if, each, transaction, ◌>>=◌, ◌>>◌,
}
use daemon_supply_chain.Values.{num, text, time, list, dict, Fields, end, field}
use daemon_supply_chain.Common.Sorting.{sort_by}
use daemon_supply_chain.Stock.{Inventory, Allocation, Reservation, Transaction, Db, Env, is_short}
use daemon_supply_chain.Stock.Queries.{
  given, first, items_of, text_or_null, has_inventory_id, update_inventory, update_allocation,
  insert_reservation, insert_transaction, fresh_text, publish,
}

abbrev pub is_allocated : Allocation → Bool
is_allocated a = a.allocation_status == "ALLOCATED"

unfoldable pub find_allocated : Env → Option String → Db → List Allocation
find_allocated env none db =
    sort_by (λ a b. leb a.allocated_at b.allocated_at) (filter is_allocated db.allocations)
find_allocated env (some order_id) db =
    sort_by (λ a b. env.collate a.allocation_id b.allocation_id)
      (filter (λ a. a.order_id == order_id && is_allocated a) db.allocations)

-- The UPDATE of the stock.
abbrev pub hold : Env → ℕ → Inventory → Inventory
hold env quantity row = record row {
  reserved_quantity = row.reserved_quantity + quantity;
  inventory_status = "AVAILABLE";
  last_updated_at = some env.now;
}

abbrev pub set_allocation_status : String → Allocation → Allocation
set_allocation_status status a = record a { allocation_status = status }

unfoldable pub reservation_row : Env → String → String → Allocation → String → Reservation
reservation_row env order_id correlation_id a suffix = record {
  reservation_id = text_append "RESV-" suffix;
  order_id = order_id;
  product_id = a.product_id;
  warehouse_id = a.warehouse_id;
  quantity = a.allocated_quantity;
  reservation_status = "RESERVED";
  reserved_at = env.now;
  correlation_id = correlation_id;
}

unfoldable pub reserved_transaction : String → String → Allocation → Transaction
reserved_transaction order_id correlation_id a = record {
  inventory_id = a.inventory_id;
  product_id = a.product_id;
  warehouse_id = a.warehouse_id;
  transaction_type = "STOCK_RESERVED";
  quantity = a.allocated_quantity;
  reference_type = "ORDER";
  reference_id = order_id;
  task_id = none;
  shipment_id = none;
  correlation_id = correlation_id;
}

-- What is written for one allocation: stock, allocation, reservation and transaction.
unfoldable pub write_reservation :
    Env → String → String → Allocation → Stateful Db (List Allocation)
write_reservation env order_id correlation_id a = do
  update_inventory a.inventory_id (hold env a.allocated_quantity)
  update_allocation a.allocation_id (set_allocation_status "RESERVED")
  suffix ← fresh_text env
  insert_reservation (reservation_row env order_id correlation_id a suffix)
  insert_transaction (reserved_transaction order_id correlation_id a)
  pure (a ∷ [])

-- One round of the loop over the allocations.
unfoldable pub reserve_allocation :
    Env → String → String → Allocation → Stateful Db (List Allocation)
reserve_allocation env order_id correlation_id a = do
  found ← gets (λ s. find (has_inventory_id a.inventory_id) s.inventory)
  row ← or_raise (failure "Inventory not found") found
  raise_if (is_short a.allocated_quantity row) (failure "Insufficient stock")
  write_reservation env order_id correlation_id a

abbrev pub reserved_fields : Allocation → Fields
reserved_fields a = field "allocation_id" (text a.allocation_id) (
    field "inventory_id" (num a.inventory_id) (
      field "product_id" (text a.product_id) (
        field "location_id" (text_or_null a.location_id)
          (field "reserved_quantity" (num a.allocated_quantity) end))))

unfoldable pub reservation_payload : Env → Allocation → List Allocation → Fields
reservation_payload env head items = field "event_type" (text "InventoryReserved") (
    field "occurred_at" (time env.now)
      (field "reservation" (dict summary) (field "correlation_id" (text head.correlation_id) end)))
  where
    summary : Fields
    summary = field "order_id" (text head.order_id) (
        field "warehouse_id" (text head.warehouse_id) (
          field "items" (list (items_of reserved_fields items))
            (field "status" (text "RESERVED") end)))

-- What the generator returns: the order, and the allocations that it reserved.
unfoldable pub reserve_order : Env → Option String → Stateful Db (String × List Allocation)
reserve_order env order_id = do
  allocations ← gets (find_allocated env order_id)
  head ← or_raise (failure "No ALLOCATED inventory found") (first allocations)
  items ← each (reserve_allocation env head.order_id head.correlation_id) allocations
  publish env "InventoryReserved" "ORDER" head.order_id head.correlation_id
      (reservation_payload env head items)
  pure (head.order_id, items)

-- `generate_inventory_reserved`
unfoldable pub generate_inventory_reserved :
    Env → Option String → Stateful Db (String × List Allocation)
generate_inventory_reserved env order_id = transaction (reserve_order env (given order_id))
