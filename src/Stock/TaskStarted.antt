-- ===== src/Stock/TaskStarted.antt =====
-- simulator/generators/inventory/task_started.py. Tasks of several types that tie in
-- `ORDER BY created_at` come by type.
use daemon_supply_chain.Common.{
  ℕ, String, ◌==◌, not, if◌then◌else◌, Option, none, some, List, ◌++◌, map, filter, find, failure,
}
use daemon_supply_chain.Common.Stateful.{
  Stateful, pure, gets, change, or_raise, raise_if, transaction, ◌>>=◌, ◌>>◌,
}
use daemon_supply_chain.Common.Sorting.{sort_by}
use daemon_supply_chain.Values.{num, text, time, dict, Fields, end, field}
use daemon_supply_chain.Stock.{Task, PackingTask, ReceivingTask, CountTask, Worker, Db, Env}
use daemon_supply_chain.Stock.Queries.{
  first, time_le, text_or_null, has_task_id, has_packing_id, has_receiving_id, has_count_id,
  update_worker, publish,
}

-- A row of warehouse_tasks of any type, as task_started.py reads it.
pub record AnyTask : Type 0 where
  pub task_id : String
  pub task_type : String
  pub shipment_id : Option String
  pub warehouse_id : String
  pub product_id : Option String
  pub location : Option String
  pub quantity : ℕ
  pub status : String
  pub assigned_worker_id : Option String
  pub created_at : Option ℕ
  pub correlation_id : String

abbrev pub of_picking : Task → AnyTask
of_picking t = record {
  task_id = t.task_id;
  task_type = t.task_type;
  shipment_id = none;
  warehouse_id = t.warehouse_id;
  product_id = some t.product_id;
  location = t.location;
  quantity = t.quantity;
  status = t.status;
  assigned_worker_id = t.assigned_worker_id;
  created_at = some t.created_at;
  correlation_id = t.correlation_id;
}

abbrev pub of_packing : PackingTask → AnyTask
of_packing t = record {
  task_id = t.task_id;
  task_type = "PACKING";
  shipment_id = none;
  warehouse_id = t.warehouse_id;
  product_id = none;
  location = none;
  quantity = t.quantity;
  status = t.status;
  assigned_worker_id = t.assigned_worker_id;
  created_at = some t.created_at;
  correlation_id = t.correlation_id;
}

abbrev pub of_receiving : ReceivingTask → AnyTask
of_receiving t = record {
  task_id = t.task_id;
  task_type = "RECEIVING";
  shipment_id = some t.shipment_id;
  warehouse_id = t.warehouse_id;
  product_id = none;
  location = t.location;
  quantity = t.quantity;
  status = t.status;
  assigned_worker_id = t.assigned_worker_id;
  created_at = t.created_at;
  correlation_id = t.correlation_id;
}

abbrev pub of_count : CountTask → AnyTask
of_count t = record {
  task_id = t.task_id;
  task_type = "CYCLE_COUNT";
  shipment_id = none;
  warehouse_id = t.warehouse_id;
  product_id = some t.product_id;
  location = some t.location;
  quantity = t.quantity;
  status = t.status;
  assigned_worker_id = t.assigned_worker_id;
  created_at = some t.created_at;
  correlation_id = t.correlation_id;
}

abbrev pub all_tasks : Db → List AnyTask
all_tasks db =
    map of_picking db.tasks
    ++ (map of_packing db.packing_tasks
        ++ (map of_receiving db.receiving_tasks ++ map of_count db.count_tasks))

-- The oldest task of any type that is not started.
unfoldable pub next_created : Db → Option AnyTask
next_created db = first (
    sort_by (λ a b. time_le a.created_at b.created_at)
      (filter (λ t. t.status == "CREATED") (all_tasks db)))

-- `WHERE worker_id = %s`, which no row meets for a null.
unfoldable pub worker_of : Option String → Db → Option Worker
worker_of none db = none
worker_of (some id) db = find (λ w. w.worker_id == id) db.workers

-- `UPDATE warehouse_tasks SET status = 'STARTED', …`
unfoldable pub start_any_task : String → ℕ → String → Stateful Db (Unit {0})
start_any_task id now worker_id = change (λ s. record s {
  tasks =
      map
        (λ t.
          if has_task_id id t
          then record t {
            status = "STARTED";
            task_started_at = some now;
            started_by = some worker_id;
          }
          else t)
        s.tasks;
  packing_tasks =
      map
        (λ t.
          if has_packing_id id t
          then record t {
            status = "STARTED";
            task_started_at = some now;
            started_by = some worker_id;
          }
          else t)
        s.packing_tasks;
  receiving_tasks =
      map
        (λ t.
          if has_receiving_id id t
          then record t {
            status = "STARTED";
            task_started_at = some now;
            started_by = some worker_id;
          }
          else t)
        s.receiving_tasks;
  count_tasks =
      map
        (λ t.
          if has_count_id id t
          then record t {
            status = "STARTED";
            task_started_at = some now;
            started_by = some worker_id;
          }
          else t)
        s.count_tasks;
})

unfoldable pub task_started_payload : Env → AnyTask → String → Fields
task_started_payload env t worker_id = field "eventType" (text "TaskStarted") (
    field "occurredAt" (time env.wall_clock)
      (field "task" (dict summary) (field "correlationId" (text t.correlation_id) end)))
  where
    summary : Fields
    summary = field "taskId" (text t.task_id) (
        field "taskType" (text t.task_type) (
          field "shipmentId" (text_or_null t.shipment_id) (
            field "warehouseId" (text t.warehouse_id) (
              field "productId" (text_or_null t.product_id) (
                field "locationId" (text_or_null t.location) (
                  field "quantity" (num t.quantity) (
                    field "workerId" (text worker_id) (
                      field "status" (text "STARTED")
                        (field "startedAt" (time env.wall_clock) end)))))))))

-- What is written for a task and its worker.
unfoldable pub start_any : Env → AnyTask → String → Stateful Db (Unit {0})
start_any env t worker_id = do
  start_any_task t.task_id env.wall_clock worker_id
  update_worker worker_id (λ w. record w { current_status = "BUSY" })
  publish env "TaskStarted" "WAREHOUSE_TASK" t.task_id t.correlation_id
      (task_started_payload env t worker_id)
  pure tt

-- The checks of the worker of a task.
unfoldable pub start_with_worker : Env → AnyTask → Stateful Db (Unit {0})
start_with_worker env t = do
  found ← gets (worker_of t.assigned_worker_id)
  worker ← or_raise (failure "Worker not found") found
  raise_if (not (worker.current_status == "AVAILABLE")) (failure "Worker not available")
  start_any env t worker.worker_id

unfoldable pub start_next : Env → Stateful Db (Unit {0})
start_next env = do
  found ← gets next_created
  t ← or_raise (failure "No CREATED warehouse task found") found
  start_with_worker env t

-- `generate_task_started`
unfoldable pub generate_task_started : Env → Stateful Db (Unit {0})
generate_task_started env = transaction (start_next env)
