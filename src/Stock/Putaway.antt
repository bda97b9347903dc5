-- ===== src/Stock/Putaway.antt =====
-- simulator/generators/inventory/inventory_putaway.py. The column available_quantity is taken as a
-- number that is not negative.
use daemon_supply_chain.Common.{
  ℕ, ◌+◌, ◌-◌, String, ◌==◌, nat_eq, leb, Bool, true, not, ◌&&◌, if◌then◌else◌, Option, none, some,
  List, [], ◌∷◌, filter, find, failure, Error, type_error,
}
use daemon_supply_chain.Common.Stateful.{
  Stateful, pure, gets, raise, or_raise, raise_if, transaction, ◌>>=◌, ◌>>◌,
}
use daemon_supply_chain.Common.Sorting.{sort_by}
use daemon_supply_chain.Values.{num, text, time, bool, dict, Fields, end, field, str}
use daemon_supply_chain.Stock.{Inventory, Transaction, Location, Db, Env, available}
use daemon_supply_chain.Stock.Queries.{
  given, first, has_inventory_id, update_inventory, update_location, insert_transaction, publish,
}
use daemon_supply_chain.Stock.StockIncreased.{given_id, correlation_of}

-- `capacity_units IS NOT NULL AND capacity_units - current_utilization >= quantity`
abbrev pub has_room : ℕ → Location → Bool
has_room quantity l = elim l.capacity_units [
  | none ↦ Bool.false
  | some capacity ↦ leb (l.current_utilization + quantity) capacity
]

abbrev pub is_excluded : Option String → Location → Bool
is_excluded none l = Bool.false
is_excluded (some id) l = l.location_id == id

-- `_find_storage_location`, without the exception.
unfoldable pub find_storage_location : String → ℕ → Option String → Db → Option Location
find_storage_location warehouse_id quantity excluded db = first (
    sort_by (λ a b. leb a.current_utilization b.current_utilization)
      (filter
        (λ l.
          l.warehouse_id == warehouse_id
          && l.status == "ACTIVE"
          && not (is_excluded excluded l)
          && has_room quantity l)
        db.locations))

-- Where the stock goes, what the location of before gives up, what the new one takes, and the quantity
-- of the transaction.
pub record Place : Type 0 where
  pub location : Location
  pub released : ℕ
  pub added : ℕ
  pub quantity : ℕ

abbrev pub no_storage : Error
no_storage = failure "No storage location available"

-- `_select_putaway_location`; a location with no capacity raises TypeError.
unfoldable pub select_putaway_location : String → Location → ℕ → ℕ → Option ℕ → Stateful Db Place
select_putaway_location warehouse_id current received total none = raise type_error
select_putaway_location warehouse_id current received total (some capacity) =
    if leb (current.current_utilization + received) capacity
    then pure (record { location = current; released = 0; added = received; quantity = received })
    else gets (find_storage_location warehouse_id total (some current.location_id)) >>= λ found.
        or_raise no_storage found >>= λ replacement. pure (record {
          location = replacement;
          released = total - received;
          added = total;
          quantity = received;
        })

-- The goods received of a row in a run.
unfoldable pub received_quantity : ℕ → String → List Transaction → ℕ
received_quantity inventory_id correlation_id [] = 0
received_quantity inventory_id correlation_id (t ∷ ts) =
    (if nat_eq t.inventory_id inventory_id
        && t.correlation_id == correlation_id
        && t.transaction_type == "GOODS_RECEIVED"
      then t.quantity
      else 0)
    + received_quantity inventory_id correlation_id ts

-- The quantity that is put away of a row that has a location.
unfoldable pub putaway_quantity : Inventory → Option String → Stateful Db ℕ
putaway_quantity row none = pure (available row)
putaway_quantity row (some run) = do
  quantity ← gets (λ s. received_quantity row.inventory_id run s.transactions)
  raise_if (leb quantity 0) (failure "No goods-received quantity found")
  pure quantity

-- The place for a row, by the location that it has.
unfoldable pub choose_place : Env → Inventory → Option String → Stateful Db Place
choose_place env row none = do
  found ← gets (find_storage_location row.warehouse_id (available row) none)
  location ← or_raise no_storage found
  pure (record {
    location = location;
    released = 0;
    added = available row;
    quantity = available row;
  })
choose_place env row (some location_id) = do
  found ← gets (λ s.
      find
        (λ l.
          l.location_id == location_id
          && l.warehouse_id == row.warehouse_id
          && l.status == "ACTIVE")
        s.locations)
  current ← or_raise (failure "Assigned inventory location is not active") found
  quantity ← putaway_quantity row (given env.simulation_correlation_id)
  select_putaway_location row.warehouse_id current quantity (available row) current.capacity_units

-- `if released_quantity:`
abbrev pub release : Option String → ℕ → Stateful Db (Unit {0})
release none quantity = pure tt
release (some id) quantity =
    if nat_eq quantity 0
    then pure tt
    else update_location id
        (λ l. record l { current_utilization = l.current_utilization - quantity })

unfoldable pub putaway_transaction : Env → Inventory → ℕ → String → Transaction
putaway_transaction env row quantity correlation_id = record {
  inventory_id = row.inventory_id;
  product_id = row.product_id;
  warehouse_id = row.warehouse_id;
  transaction_type = "AVAILABLE";
  quantity = quantity;
  reference_type = "INVENTORY";
  reference_id = str env.texts (num row.inventory_id);
  task_id = none;
  shipment_id = none;
  correlation_id = correlation_id;
}

unfoldable pub putaway_payload : Env → Inventory → Place → String → Fields
putaway_payload env row p correlation_id = field "event_type" (text "InventoryPutaway") (
    field "occurred_at" (time env.now) (
      field "inventory" (dict summary)
        (field "putaway" (dict done) (field "correlation_id" (text correlation_id) end))))
  where
    summary : Fields
    summary = field "inventory_id" (num row.inventory_id) (
        field "product_id" (text row.product_id) (
          field "warehouse_id" (text row.warehouse_id) (
            field "location_id" (text p.location.location_id)
              (field "quantity" (num p.quantity) (field "status" (text "AVAILABLE") end)))))

    done : Fields
    done = field "completed" (bool true) (field "location_id" (text p.location.location_id) end)

abbrev pub put_at : ℕ → String → Inventory → Inventory
put_at now location_id row = record row {
  location_id = some location_id;
  inventory_status = "AVAILABLE";
  last_updated_at = some now;
}

abbrev pub fill : ℕ → Location → Location
fill quantity l = record l { current_utilization = l.current_utilization + quantity }

-- What is written for a row and its place.
unfoldable pub put_away : Env → Inventory → Place → String → Stateful Db (Unit {0})
put_away env row p correlation_id = do
  update_inventory row.inventory_id (put_at env.now p.location.location_id)
  update_location p.location.location_id (fill p.added)
  insert_transaction (putaway_transaction env row p.quantity correlation_id)
  publish env "InventoryPutaway" "INVENTORY" (str env.texts (num row.inventory_id)) correlation_id
      (putaway_payload env row p correlation_id)
  pure tt

-- What the location of before gives up is written first, and a putaway of nothing is refused.
unfoldable pub settle_place : Env → Inventory → Place → String → Stateful Db (Unit {0})
settle_place env row p correlation_id = do
  release (given row.location_id) p.released
  raise_if (leb p.quantity 0) (failure "Invalid available quantity")
  put_away env row p correlation_id

abbrev pub find_available_row : ℕ → Db → Option Inventory
find_available_row id db =
    find (λ r. has_inventory_id id r && r.inventory_status == "AVAILABLE") db.inventory

-- The row of an id, its place and what is written; the place is returned.
unfoldable pub putaway_row : Env → ℕ → Stateful Db Place
putaway_row env id = do
  found ← gets (find_available_row id)
  row ← or_raise (failure "No inventory ready for putaway") found
  p ← choose_place env row (given row.location_id)
  settle_place env row p (correlation_of (given env.simulation_correlation_id) row)
  pure p

-- `generate_inventory_putaway`
unfoldable pub generate_inventory_putaway : Env → Option ℕ → Stateful Db Place
generate_inventory_putaway env inventory_id = transaction (do
  id ← or_raise (failure "inventory_id required for InventoryPutaway") (given_id inventory_id)
  putaway_row env id)
