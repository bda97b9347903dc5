-- ===== src/Stock/GoodsReceived.antt =====
-- simulator/generators/warehouse/goods_received.py
use daemon_supply_chain.Common.{
  ℕ, ◌+◌, ◌*◌, String, ◌==◌, nat_eq, leb, Bool, not, ◌&&◌, if◌then◌else◌, Option, none, some, List,
  [], ◌∷◌, filter, find, failure,
}
use daemon_supply_chain.Common.Stateful.{
  Stateful, pure, gets, or_raise, raise_if, each, transaction, ◌>>=◌, ◌>>◌,
}
use daemon_supply_chain.Common.Sorting.{sort_by}
use daemon_supply_chain.Values.{num, text, time, list, dict, Fields, end, field}
use daemon_supply_chain.Timing.{microseconds_per_minute}
use daemon_supply_chain.Stock.{Inventory, Transaction, ReceivingTask, ShipmentItem, Db, Env}
use daemon_supply_chain.Stock.Queries.{
  given, first, is_empty, items_of, text_or_null, time_ge, time_desc, of_run, has_receiving_id,
  update_inventory, update_shipment, update_shipment_item, update_receiving_task, insert_inventory,
  insert_transaction, randint, publish,
}
use daemon_supply_chain.Stock.PickingCompleted.{release_worker}

abbrev pub is_receiving : ReceivingTask → Bool
is_receiving t = t.status == "STARTED"

-- The order of a task that is looked for without an id: the newest start, then the newest creation.
abbrev pub is_newer : ReceivingTask → ReceivingTask → Bool
is_newer a b =
    if time_ge a.task_started_at b.task_started_at && time_ge b.task_started_at a.task_started_at
    then time_desc a.created_at b.created_at
    else time_ge a.task_started_at b.task_started_at

unfoldable pub find_started_receiving : Env → Option String → Db → Option ReceivingTask
find_started_receiving env (some task_id) db =
    find (λ t. has_receiving_id task_id t && is_receiving t) db.receiving_tasks
find_started_receiving env none db = first (
    sort_by is_newer
      (filter (λ t. is_receiving t && of_run env t.correlation_id) db.receiving_tasks))

-- The first of three times that is there, or else the clock.
abbrev pub base_time : Option ℕ → Option ℕ → Option ℕ → ℕ → ℕ
base_time (some t) _ _ now = t
base_time none (some t) _ now = t
base_time none none (some t) now = t
base_time none none none now = now

-- `_get_goods_received_time`, behind the number of minutes that it draws.
unfoldable pub get_goods_received_time : ℕ → ReceivingTask → ℕ → ℕ
get_goods_received_time now t minutes =
    base_time t.task_started_at t.assigned_at t.created_at now + minutes * microseconds_per_minute

-- `task["expected_quantity"] or task["quantity"]`
abbrev pub expected : ReceivingTask → ℕ
expected t = if nat_eq t.expected_quantity 0 then t.quantity else t.expected_quantity

abbrev pub item_id_le : ShipmentItem → ShipmentItem → Bool
item_id_le a b = leb a.shipment_item_id b.shipment_item_id

unfoldable pub items_of_shipment : String → Db → List ShipmentItem
items_of_shipment shipment_id db =
    sort_by item_id_le (filter (λ i. i.shipment_id == shipment_id) db.shipment_items)

abbrev pub shipped : List ShipmentItem → ℕ
shipped [] = 0
shipped (i ∷ is) = i.shipped_quantity + shipped is

-- A line of what was received.
pub record Received : Type 0 where
  pub inventory_id : ℕ
  pub product_id : String
  pub quantity : ℕ

-- `INSERT INTO inventory`, by the id that the sequence gives.
unfoldable pub received_row : ReceivingTask → ℕ → ShipmentItem → ℕ → Inventory
received_row t received_at i id = record {
  inventory_id = id;
  product_id = i.product_id;
  warehouse_id = t.warehouse_id;
  on_hand_quantity = i.shipped_quantity;
  reserved_quantity = 0;
  damaged_quantity = 0;
  inventory_status = "RECEIVED";
  location_id = none;
  correlation_id = t.correlation_id;
  last_updated_at = some received_at;
}

abbrev pub put_in : ℕ → ℕ → Inventory → Inventory
put_in received_at quantity row = record row {
  on_hand_quantity = row.on_hand_quantity + quantity;
  inventory_status = "RECEIVED";
  last_updated_at = some received_at;
}

-- The row of the product in the warehouse is raised, or made where there is none; its id.
unfoldable pub stock_item : ReceivingTask → ℕ → ShipmentItem → Option Inventory → Stateful Db ℕ
stock_item t received_at i none = insert_inventory (received_row t received_at i)
stock_item t received_at i (some row) = do
  update_inventory row.inventory_id (put_in received_at i.shipped_quantity)
  pure row.inventory_id

unfoldable pub received_transaction : ReceivingTask → ShipmentItem → ℕ → Transaction
received_transaction t i inventory_id = record {
  inventory_id = inventory_id;
  product_id = i.product_id;
  warehouse_id = t.warehouse_id;
  transaction_type = "GOODS_RECEIVED";
  quantity = i.shipped_quantity;
  reference_type = "SHIPMENT";
  reference_id = t.shipment_id;
  task_id = some t.task_id;
  shipment_id = some t.shipment_id;
  correlation_id = t.correlation_id;
}

abbrev pub stock_of : String → String → Db → Option Inventory
stock_of product_id warehouse_id db =
    find (λ r. r.product_id == product_id && r.warehouse_id == warehouse_id) db.inventory

-- One round of the loop over the items.
unfoldable pub receive_item : ReceivingTask → ℕ → ShipmentItem → Stateful Db (List Received)
receive_item t received_at i = do
  update_shipment_item i.shipment_item_id
      (λ row. record row { received_quantity = i.shipped_quantity })
  found ← gets (stock_of i.product_id t.warehouse_id)
  inventory_id ← stock_item t received_at i found
  insert_transaction (received_transaction t i inventory_id)
  pure (
      record {
        inventory_id = inventory_id;
        product_id = i.product_id;
        quantity = i.shipped_quantity;
      }
      ∷ [])

abbrev pub complete_receiving : Option String → ℕ → ℕ → ℕ → ReceivingTask → ReceivingTask
complete_receiving worker_id total minutes received_at t = record t {
  status = "COMPLETED";
  received_quantity = some total;
  actual_minutes = some minutes;
  completed_at = some received_at;
  task_completed_at = some received_at;
  completed_by = worker_id;
}

abbrev pub received_fields : Received → Fields
received_fields r =
    field "inventory_id" (num r.inventory_id)
      (field "product_id" (text r.product_id) (field "quantity" (num r.quantity) end))

unfoldable pub goods_received_payload : ReceivingTask → ℕ → ℕ → List Received → Fields
goods_received_payload t total received_at created = field "event_type" (text "GoodsReceived") (
    field "occurred_at" (time received_at) (
      field "goods_received" (dict summary)
        (field "inventory" (dict lines) (field "correlation_id" (text t.correlation_id) end))))
  where
    summary : Fields
    summary = field "task_id" (text t.task_id) (
        field "shipment_id" (text t.shipment_id) (
          field "warehouse_id" (text t.warehouse_id) (
            field "worker_id" (text_or_null t.assigned_worker_id)
              (field "received_quantity" (num total) (field "status" (text "RECEIVED") end)))))

    lines : Fields
    lines =
        field "items" (list (items_of received_fields created))
          (field "next_event" (text "StockIncreased") end)

-- The task, its worker, its shipment and the event, behind the loop.
unfoldable pub close_receiving :
    Env → ReceivingTask → ℕ → ℕ → ℕ → List Received → Stateful Db (Unit {0})
close_receiving env t total minutes received_at created = do
  update_receiving_task t.task_id
      (complete_receiving t.assigned_worker_id total minutes received_at)
  release_worker (given t.assigned_worker_id)
  update_shipment t.shipment_id
      (λ x. record x { shipment_status = "RECEIVED"; updated_at = some received_at })
  publish env "GoodsReceived" "SHIPMENT" t.shipment_id t.correlation_id
      (goods_received_payload t total received_at created)
  pure tt

-- What a call returns.
pub record Receipt : Type 0 where
  pub task_id : String
  pub shipment_id : String
  pub received_quantity : ℕ
  pub inventory : List Received

-- The checks of a task and what is written for it.
unfoldable pub receive_goods : Env → ReceivingTask → Stateful Db Receipt
receive_goods env t = do
  minutes ← randint env 10 45
  items ← gets (items_of_shipment t.shipment_id)
  raise_if (is_empty items) (failure "No shipment items found")
  raise_if (not (nat_eq (expected t) (shipped items))) (failure "Quantity mismatch")
  created ← each (receive_item t (get_goods_received_time env.now t minutes)) items
  close_receiving env t (shipped items) minutes (get_goods_received_time env.now t minutes) created
  pure (record {
    task_id = t.task_id;
    shipment_id = t.shipment_id;
    received_quantity = shipped items;
    inventory = created;
  })

-- The task, and its receipt.
unfoldable pub receive_started : Env → Option String → Stateful Db Receipt
receive_started env task_id = do
  found ← gets (find_started_receiving env task_id)
  t ← or_raise (failure "No STARTED receiving task found") found
  receive_goods env t

-- `generate_goods_received`
unfoldable pub generate_goods_received : Env → Option String → Stateful Db Receipt
generate_goods_received env task_id = transaction (receive_started env (given task_id))
