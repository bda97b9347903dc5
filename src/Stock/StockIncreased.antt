-- ===== src/Stock/StockIncreased.antt =====
-- simulator/generators/inventory/stock_increased.py
use daemon_supply_chain.Common.{
  ℕ, ◌+◌, String, ◌==◌, nat_eq, leb, ltb, if◌then◌else◌, ◌&&◌, Option, none, some, find, failure,
}
use daemon_supply_chain.Common.Stateful.{
  Stateful, pure, gets, or_raise, raise_if, transaction, ◌>>=◌, ◌>>◌,
}
use daemon_supply_chain.Values.{null, num, text, time, dict, Fields, end, field, str}
use daemon_supply_chain.Stock.{Inventory, Transaction, Db, Env, available}
use daemon_supply_chain.Stock.Queries.{
  given, has_inventory_id, update_inventory, insert_transaction, publish,
}

abbrev pub find_received : ℕ → Db → Option Inventory
find_received inventory_id db =
    find (λ r. has_inventory_id inventory_id r && r.inventory_status == "RECEIVED") db.inventory

-- `_get_stock_increased_time`
unfoldable pub get_stock_increased_time : Option ℕ → ℕ → ℕ
get_stock_increased_time none simulation_now = simulation_now
get_stock_increased_time (some received_at) simulation_now =
    if leb simulation_now received_at then received_at else simulation_now

abbrev pub make_available : ℕ → Inventory → Inventory
make_available at row = record row { inventory_status = "AVAILABLE"; last_updated_at = some at }

-- `os.getenv("SIMULATION_CORRELATION_ID") or …`
abbrev pub correlation_of : Option String → Inventory → String
correlation_of none row = row.correlation_id
correlation_of (some id) row = id

unfoldable pub increased_transaction : Env → Inventory → String → Transaction
increased_transaction env row correlation_id = record {
  inventory_id = row.inventory_id;
  product_id = row.product_id;
  warehouse_id = row.warehouse_id;
  transaction_type = "STOCK_INCREASED";
  quantity = row.on_hand_quantity;
  reference_type = "INVENTORY";
  reference_id = str env.texts (num row.inventory_id);
  task_id = none;
  shipment_id = none;
  correlation_id = correlation_id;
}

unfoldable pub increased_payload : ℕ → Inventory → String → Fields
increased_payload at row correlation_id = field "event_type" (text "StockIncreased") (
    field "occurred_at" (time at)
      (field "inventory" (dict summary) (field "correlation_id" (text correlation_id) end)))
  where
    summary : Fields
    summary = field "inventory_id" (num row.inventory_id) (
        field "product_id" (text row.product_id) (
          field "warehouse_id" (text row.warehouse_id) (
            field "on_hand_quantity" (num row.on_hand_quantity) (
              field "available_quantity" (num (available row)) (
                field "status" (text "AVAILABLE")
                  (field "location_id" null (field "next_event" (text "InventoryPutaway") end)))))))

-- What is written for a row, at a time and with a correlation.
unfoldable pub increase : Env → Inventory → ℕ → String → Stateful Db ℕ
increase env row at correlation_id = do
  update_inventory row.inventory_id (make_available at)
  insert_transaction (increased_transaction env row correlation_id)
  publish env "StockIncreased" "INVENTORY" (str env.texts (num row.inventory_id)) correlation_id
      (increased_payload at row correlation_id)
  pure row.inventory_id

-- The checks of a row, and what is written for it.
unfoldable pub increase_row : Env → ℕ → Stateful Db ℕ
increase_row env id = do
  found ← gets (find_received id)
  row ← or_raise (failure "No RECEIVED inventory found") found
  raise_if (leb row.on_hand_quantity 0) (failure "Invalid on hand quantity")
  raise_if (ltb row.on_hand_quantity (row.reserved_quantity + row.damaged_quantity))
      (failure "Invalid stock calculation")
  increase env row (get_stock_increased_time row.last_updated_at env.now)
      (correlation_of (given env.simulation_correlation_id) row)

-- `if not inventory_id`
abbrev pub given_id : Option ℕ → Option ℕ
given_id none = none
given_id (some n) = if nat_eq n 0 then none else some n

-- `generate_stock_increased`, which returns the id of the row.
unfoldable pub generate_stock_increased : Env → Option ℕ → Stateful Db ℕ
generate_stock_increased env inventory_id = transaction (do
  id ←
      or_raise (failure "inventory_id is required for StockIncreased event") (given_id inventory_id)
  increase_row env id)
