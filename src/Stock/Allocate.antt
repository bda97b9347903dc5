-- ===== src/Stock/Allocate.antt =====
-- simulator/generators/inventory/inventory_allocation_created.py
use Prim.Native.String.{◌++◌ as text_append}
use daemon_supply_chain.Common.{
  ℕ, ◌-◌, String, ◌==◌, leb, if◌then◌else◌, Bool, ◌&&◌, not, Option, none, some, List, [], ◌∷◌,
  length, elem, any, filter, find, failure,
}
use daemon_supply_chain.Common.Stateful.{
  Stateful, pure, gets, or_raise, raise_if, each, transaction, ◌>>=◌, ◌>>◌,
}
use daemon_supply_chain.Values.{num, text, time, list, dict, Fields, end, field}
use daemon_supply_chain.Common.Sorting.{sort_by}
use daemon_supply_chain.Stock.{
  Inventory, Order, OrderItem, Allocation, Db, Env, available, has_available,
}
use daemon_supply_chain.Stock.Queries.{
  given, first, is_empty, items_of, text_or_null, insert_allocation, fresh_text, publish,
}

abbrev pub is_live : Allocation → Bool
is_live a = elem a.allocation_status ("ALLOCATED" ∷ "RESERVED" ∷ [])

abbrev pub is_allocatable : Db → Order → Bool
is_allocatable db o =
    o.items_created
    && o.order_status == "CREATED"
    && not (any (λ a. a.order_id == o.order_id && is_live a) db.allocations)

unfoldable pub find_order : Option String → Db → Option Order
find_order none db =
    first (sort_by (λ o o'. leb o.created_at o'.created_at) (filter (is_allocatable db) db.orders))
find_order (some id) db = find (λ o. o.order_id == id && is_allocatable db o) db.orders

abbrev pub items_of_order : String → Db → List OrderItem
items_of_order order_id db =
    sort_by (λ i j. leb i.order_item_id j.order_item_id)
      (filter (λ i. i.order_id == order_id) db.order_items)

-- `_check_existing_allocation`
unfoldable pub check_existing_allocation : String → String → Db → Option Allocation
check_existing_allocation order_id product_id db =
    find (λ a. a.order_id == order_id && a.product_id == product_id && is_live a) db.allocations

abbrev pub is_available : String → String → Inventory → Bool
is_available warehouse_id product_id row =
    row.warehouse_id == warehouse_id
    && row.product_id == product_id
    && row.inventory_status == "AVAILABLE"
    && has_available row
    && has_location row.location_id
  where
    has_location : Option String → Bool
    has_location none = Bool.false
    has_location (some l) = Bool.true

-- `_find_available_inventory`
unfoldable pub find_available_inventory : String → String → Db → List Inventory
find_available_inventory warehouse_id product_id db =
    sort_by (λ r r'. leb (available r') (available r))
      (filter (is_available warehouse_id product_id) db.inventory)

-- `min(available_qty, remaining_qty)`
abbrev pub min : ℕ → ℕ → ℕ
min a b = if leb a b then a else b

unfoldable pub allocation_row : Env → Order → String → Inventory → ℕ → String → Allocation
allocation_row env order product_id row quantity suffix = record {
  allocation_id = text_append "ALLOC-" suffix;
  order_id = order.order_id;
  warehouse_id = order.warehouse_id;
  product_id = product_id;
  allocated_quantity = quantity;
  allocation_status = "ALLOCATED";
  allocated_at = env.now;
  correlation_id = order.correlation_id;
  inventory_id = row.inventory_id;
  location_id = row.location_id;
}

-- The insertion of one allocation, with the id that `_generate_allocation_id` gives.
unfoldable pub create_allocation : Env → Order → String → Inventory → ℕ → Stateful Db Allocation
create_allocation env order product_id row quantity = do
  suffix ← fresh_text env
  insert_allocation (allocation_row env order product_id row quantity suffix)
  pure (allocation_row env order product_id row quantity suffix)

-- The loop over the locations: the allocations, and the quantity that is missing.
unfoldable pub allocate_rows :
    Env → Order → String → List Inventory → ℕ → Stateful Db (List Allocation × ℕ)
allocate_rows env order product_id [] remaining_qty = pure ([], remaining_qty)
allocate_rows env order product_id (row ∷ rows) remaining_qty =
    if leb remaining_qty 0
    then pure ([], remaining_qty)
    else create_allocation env order product_id row (min (available row) remaining_qty) >>= λ a.
        allocate_rows env order product_id rows (remaining_qty - min (available row) remaining_qty)
        >>= λ rest. pure (a ∷ rest.0, rest.1)

-- One product.
unfoldable pub allocate_item : Env → Order → OrderItem → Stateful Db (List Allocation)
allocate_item env order i = do
  existing ← gets (check_existing_allocation order.order_id i.product_id)
  raise_if (is_found existing) (failure "Allocation already exists")
  inventory_rows ← gets (find_available_inventory order.warehouse_id i.product_id)
  raise_if (is_empty inventory_rows) (failure "No inventory found")
  split ← allocate_rows env order i.product_id inventory_rows i.quantity
  raise_if (not (leb split.1 0)) (failure "Insufficient inventory")
  pure split.0
  where
    is_found : Option Allocation → Bool
    is_found none = Bool.false
    is_found (some a) = Bool.true

abbrev pub allocation_fields : Allocation → Fields
allocation_fields a = field "allocation_id" (text a.allocation_id) (
    field "product_id" (text a.product_id) (
      field "inventory_id" (num a.inventory_id) (
        field "location_id" (text_or_null a.location_id) (
          field "allocated_quantity" (num a.allocated_quantity)
            (field "allocation_status" (text a.allocation_status) end)))))

unfoldable pub allocation_payload : Env → Order → List Allocation → Fields
allocation_payload env order allocations = field "event_type" (text "InventoryAllocationCreated") (
    field "occurred_at" (time env.now)
      (field "allocation" (dict summary) (field "correlation_id" (text order.correlation_id) end)))
  where
    summary : Fields
    summary = field "order_id" (text order.order_id) (
        field "warehouse_id" (text order.warehouse_id) (
          field "allocations" (list (items_of allocation_fields allocations))
            (field "total_allocations" (num (length allocations)) end)))

-- What the generator returns: the order, and its allocations.
unfoldable pub allocate_order : Env → Option String → Stateful Db (String × List Allocation)
allocate_order env order_id = do
  found ← gets (find_order order_id)
  order ← or_raise (failure "No CREATED order available for allocation") found
  order_items ← gets (items_of_order order.order_id)
  raise_if (is_empty order_items) (failure "No order items found")
  allocations ← each (allocate_item env order) order_items
  publish env "InventoryAllocationCreated" "ORDER" order.order_id order.correlation_id
      (allocation_payload env order allocations)
  pure (order.order_id, allocations)

-- `generate_inventory_allocation_created`
unfoldable pub generate_inventory_allocation_created :
    Env → Option String → Stateful Db (String × List Allocation)
generate_inventory_allocation_created env order_id =
    transaction (allocate_order env (given order_id))
