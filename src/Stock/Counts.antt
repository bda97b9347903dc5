-- ===== src/Stock/Counts.antt =====
-- simulator/generators/inventory/cycle_count_created.py
use daemon_supply_chain.Common.{
  ℕ, ◌-◌, String, ◌==◌, Bool, ◌&&◌, ◌||◌, if◌then◌else◌, Option, none, some, List, [], ◌∷◌, length,
  any, filter, failure,
}
use daemon_supply_chain.Common.Integers.{pos}
use daemon_supply_chain.Common.Stateful.{
  Stateful, pure, gets, or_raise, raise_if, transaction, ◌>>=◌, ◌>>◌,
}
use daemon_supply_chain.Common.Sorting.{sort_by}
use daemon_supply_chain.Values.{num, text, time, dict, Fields, end, field}
use daemon_supply_chain.Ids.{next_task_id}
use daemon_supply_chain.Stock.{Inventory, CountTask, Worker, Db, Env}
use daemon_supply_chain.Stock.Queries.{
  first, one_of, time_le, update_worker, insert_count_task, fresh_text, drawn_id, randint, publish,
}

-- The received rows that have a location, with it.
abbrev pub with_location : List Inventory → List (Inventory × String)
with_location [] = []
with_location (row ∷ rows) =
    let rest = with_location rows in
    if row.inventory_status == "RECEIVED"
    then elim row.location_id [ none ↦ rest | some id ↦ (row, id) ∷ rest ]
    else rest

unfoldable pub find_countable : Db → Option (Inventory × String)
find_countable db =
    first (
      sort_by (λ a b. time_le a.0.last_updated_at b.0.last_updated_at) (with_location db.inventory))

abbrev pub is_open : CountTask → Bool
is_open t = t.status == "CREATED" || t.status == "STARTED"

-- The duplicate check, which does not look at the warehouse.
unfoldable pub is_counted : String → String → Db → Bool
is_counted product_id location_id db =
    any (λ t. t.product_id == product_id && t.location == location_id && is_open t) db.count_tasks

unfoldable pub count_workers : String → Db → List Worker
count_workers warehouse_id db =
    filter (λ w. w.warehouse_id == warehouse_id && w.current_status == "AVAILABLE") db.workers

unfoldable pub count_row : Env → Inventory → String → Worker → String → String → ℕ → CountTask
count_row env row location_id worker task_id correlation_id estimated_minutes = record {
  task_id = task_id;
  warehouse_id = row.warehouse_id;
  product_id = row.product_id;
  location = location_id;
  quantity = row.on_hand_quantity;
  expected_quantity = row.on_hand_quantity;
  received_quantity = none;
  discrepancy_quantity = pos 0;
  adjustment_processed = Bool.false;
  priority = "MEDIUM";
  status = "CREATED";
  assigned_worker_id = some worker.worker_id;
  estimated_minutes = estimated_minutes;
  actual_minutes = none;
  created_at = env.wall_clock;
  assigned_at = env.wall_clock;
  task_started_at = none;
  task_completed_at = none;
  completed_at = none;
  created_by = "WMS";
  started_by = none;
  completed_by = none;
  correlation_id = correlation_id;
}

unfoldable pub count_created_payload : Env → Inventory → CountTask → String → Fields
count_created_payload env row t worker_id = field "eventType" (text "CycleCountCreated") (
    field "occurredAt" (time env.wall_clock)
      (field "cycleCountTask" (dict summary) (field "correlationId" (text t.correlation_id) end)))
  where
    summary : Fields
    summary = field "taskId" (text t.task_id) (
        field "inventoryId" (num row.inventory_id) (
          field "warehouseId" (text t.warehouse_id) (
            field "locationId" (text t.location) (
              field "productId" (text t.product_id) (
                field "expectedQuantity" (num t.expected_quantity)
                  (field "workerId" (text worker_id) (field "status" (text "CREATED") end)))))))

-- The task, its worker and the event.
unfoldable pub write_count : Env → Inventory → CountTask → String → Stateful Db String
write_count env row t worker_id = do
  insert_count_task t
  update_worker worker_id (λ w. record w { current_status = "BUSY" })
  publish env "CycleCountCreated" "WAREHOUSE_TASK" t.task_id t.correlation_id
      (count_created_payload env row t worker_id)
  pure t.task_id

-- The draws for a row at its location, and what is written for it.
unfoldable pub count_at : Env → Inventory → String → Stateful Db String
count_at env row location_id = do
  counted ← gets (is_counted row.product_id location_id)
  raise_if counted (failure "Cycle count already exists")
  workers ← gets (count_workers row.warehouse_id)
  n ← randint env 0 (length workers - 1)
  worker ← or_raise (failure "No available worker") (one_of n workers)
  task_id ← drawn_id next_task_id
  correlation_id ← fresh_text env
  minutes ← randint env 10 30
  write_count env row (count_row env row location_id worker task_id correlation_id minutes)
      worker.worker_id

unfoldable pub create_count : Env → Stateful Db String
create_count env = do
  found ← gets find_countable
  placed ← or_raise (failure "No inventory available for cycle count") found
  count_at env placed.0 placed.1

-- `generate_cycle_count_created`
unfoldable pub generate_cycle_count_created : Env → Stateful Db String
generate_cycle_count_created env = transaction (create_count env)
