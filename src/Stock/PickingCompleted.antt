-- ===== src/Stock/PickingCompleted.antt =====
-- simulator/generators/warehouse/picking_completed.py
use daemon_supply_chain.Common.{
  ℕ, ◌+◌, ◌-◌, ◌*◌, String, ◌==◌, ltb, Bool, ◌&&◌, Option, none, some, filter, find, failure,
}
use daemon_supply_chain.Common.Stateful.{
  Stateful, pure, gets, or_raise, raise_if, transaction, ◌>>=◌, ◌>>◌,
}
use daemon_supply_chain.Values.{num, text, time, dict, Fields, end, field}
use daemon_supply_chain.Timing.{microseconds_per_minute}
use daemon_supply_chain.Common.Sorting.{sort_by}
use daemon_supply_chain.Stock.{Inventory, Allocation, Transaction, Task, Db, Env}
use daemon_supply_chain.Stock.Queries.{
  given, first, time_le, text_or_null, has_inventory_id, has_allocation_id, has_task_id,
  update_inventory, update_allocation, update_task, update_worker, update_location,
  insert_transaction, randint, publish,
}
use daemon_supply_chain.Stock.Reserve.{set_allocation_status}
use daemon_supply_chain.Stock.PickingTasks.{is_picking}

abbrev pub is_started : Task → Bool
is_started t = is_picking t && t.status == "STARTED"

-- The task of the id, or else the first of the order, or else the first of all.
unfoldable pub find_started : Option String → Option String → Db → Option Task
find_started (some task_id) order_id db = find (λ t. has_task_id task_id t && is_started t) db.tasks
find_started none (some order_id) db = first (
    sort_by (λ a b. time_le a.task_started_at b.task_started_at)
      (filter (λ t. t.order_id == order_id && is_started t) db.tasks))
find_started none none db =
    first
      (sort_by (λ a b. time_le a.task_started_at b.task_started_at) (filter is_started db.tasks))

-- The UPDATE of the stock, past the checks that neither quantity falls below zero.
abbrev pub take_out : ℕ → ℕ → Inventory → Inventory → Inventory
take_out completed_at quantity found row = record row {
  on_hand_quantity = found.on_hand_quantity - quantity;
  reserved_quantity = found.reserved_quantity - quantity;
  last_updated_at = some completed_at;
}

unfoldable pub picked_transaction : Task → ℕ → Transaction
picked_transaction task inventory_id = record {
  inventory_id = inventory_id;
  product_id = task.product_id;
  warehouse_id = task.warehouse_id;
  transaction_type = "STOCK_PICKED";
  quantity = task.quantity;
  reference_type = "PICKING_TASK";
  reference_id = task.task_id;
  task_id = some task.task_id;
  shipment_id = none;
  correlation_id = task.correlation_id;
}

abbrev pub complete_task : ℕ → ℕ → Option String → Task → Task
complete_task actual_minutes completed_at worker_id t = record t {
  status = "COMPLETED";
  actual_minutes = some actual_minutes;
  completed_at = some completed_at;
  task_completed_at = some completed_at;
  completed_by = worker_id;
}

-- `GREATEST(current_utilization - quantity, 0)`, where there is a location.
abbrev pub release_location : Option String → ℕ → Stateful Db (Unit {0})
release_location none quantity = pure tt
release_location (some id) quantity =
    update_location id (λ l. record l { current_utilization = l.current_utilization - quantity })

abbrev pub release_worker : Option String → Stateful Db (Unit {0})
release_worker none = pure tt
release_worker (some id) = update_worker id (λ w. record w { current_status = "AVAILABLE" })

-- The stock, its location and its transaction.
unfoldable pub move_stock : ℕ → Task → Allocation → Inventory → Stateful Db (Unit {0})
move_stock completed_at task a row = do
  update_inventory a.inventory_id (take_out completed_at task.quantity row)
  release_location (given a.location_id) task.quantity
  insert_transaction (picked_transaction task a.inventory_id)

-- The allocation, the task and its worker.
unfoldable pub close_task : Env → ℕ → Task → Stateful Db (Unit {0})
close_task env completed_at task = do
  update_allocation task.allocation_id (set_allocation_status "PICKED")
  actual_minutes ← randint env 5 30
  update_task task.task_id (complete_task actual_minutes completed_at task.assigned_worker_id)
  release_worker (given task.assigned_worker_id)

unfoldable pub picked_payload : ℕ → Task → ℕ → Fields
picked_payload completed_at task inventory_id = field "event_type" (text "PickingCompleted") (
    field "occurred_at" (time completed_at)
      (field "picking" (dict summary) (field "correlation_id" (text task.correlation_id) end)))
  where
    summary : Fields
    summary = field "task_id" (text task.task_id) (
        field "order_id" (text task.order_id) (
          field "warehouse_id" (text task.warehouse_id) (
            field "worker_id" (text_or_null task.assigned_worker_id) (
              field "product_id" (text task.product_id) (
                field "quantity" (num task.quantity) (
                  field "inventory_id" (num inventory_id)
                    (field "status" (text "COMPLETED") end)))))))

-- The checks of one task and what is written for it.
unfoldable pub complete_picking : Env → Task → Stateful Db (Unit {0})
complete_picking env task = do
  allocated ← gets (λ s. find (has_allocation_id task.allocation_id) s.allocations)
  a ← or_raise (failure "No inventory allocation found") allocated
  minutes ← randint env 5 30
  found ← gets (λ s. find (has_inventory_id a.inventory_id) s.inventory)
  row ← or_raise (failure "Inventory not found") found
  raise_if (ltb row.on_hand_quantity task.quantity) (failure "Insufficient on hand inventory")
  raise_if (ltb row.reserved_quantity task.quantity) (failure "Reserved inventory mismatch")
  move_stock (env.now + minutes * microseconds_per_minute) task a row
  close_task env (env.now + minutes * microseconds_per_minute) task
  publish env "PickingCompleted" "TASK" task.task_id task.correlation_id
      (picked_payload (env.now + minutes * microseconds_per_minute) task a.inventory_id)
  pure tt

-- The task and its order.
unfoldable pub complete_started :
    Env → Option String → Option String → Stateful Db (String × String)
complete_started env task_id order_id = do
  found ← gets (find_started task_id order_id)
  task ← or_raise (failure "No STARTED PICKING task found") found
  complete_picking env task
  pure (task.task_id, task.order_id)

-- `generate_picking_completed`
unfoldable pub generate_picking_completed :
    Env → Option String → Option String → Stateful Db (String × String)
generate_picking_completed env task_id order_id =
    transaction (complete_started env (given task_id) (given order_id))
