-- ===== src/Stock/Receiving.antt =====
-- simulator/generators/warehouse/receiving_task_created_inbound.py and receiving_task_started.py
use daemon_supply_chain.Common.{
  ℕ, ◌+◌, ◌-◌, ◌*◌, String, ◌==◌, Bool, true, not, ◌&&◌, ◌||◌, Option, none, some, List, length,
  filter, find, failure,
}
use daemon_supply_chain.Common.Stateful.{Stateful, pure, gets, or_raise, transaction, ◌>>=◌, ◌>>◌}
use daemon_supply_chain.Common.Sorting.{sort_by}
use daemon_supply_chain.Values.{num, text, time, dict, Fields, end, field}
use daemon_supply_chain.Timing.{microseconds_per_minute}
use daemon_supply_chain.Ids.{next_task_id}
use daemon_supply_chain.Stock.{ReceivingTask, Shipment, Worker, Location, Db, Env}
use daemon_supply_chain.Stock.Queries.{
  given, first, one_of, text_or_null, time_le, time_desc, max_time, of_run, has_receiving_id,
  update_worker, update_shipment, update_receiving_task, insert_receiving_task, drawn_id, randint,
  publish,
}

-- The first delivered shipment with no task yet.
unfoldable pub find_delivered : Env → Db → Option Shipment
find_delivered env db = first (
    sort_by (λ a b. time_le a.updated_at b.updated_at)
      (filter
        (λ x.
          x.shipment_status == "DELIVERED"
          && not x.receiving_task_created
          && of_run env x.correlation_id)
        db.shipments))

-- `_get_receiving_task_time`, behind the number of minutes that it draws.
unfoldable pub get_receiving_task_time : ℕ → Shipment → ℕ → ℕ
get_receiving_task_time now x minutes =
    max_time x.actual_delivery (max_time x.updated_at (max_time x.shipment_date now))
    + minutes * microseconds_per_minute

-- `role IN (…)`
abbrev pub receives : String → Bool
receives role =
    role == "Inventory Clerk"
    || role == "Quality Inspector"
    || role == "Forklift Operator"
    || role == "Warehouse Associate"
    || role == "Inbound Associate"

-- The workers among whom `_get_available_receiving_worker` chooses.
unfoldable pub receiving_workers : String → Db → List Worker
receiving_workers warehouse_id db =
    filter
      (λ w.
        w.warehouse_id == warehouse_id
        && w.current_status == "AVAILABLE"
        && w.employment_status == "Active"
        && receives w.role)
      db.workers

unfoldable pub get_available_receiving_worker : Env → String → Stateful Db (Option Worker)
get_available_receiving_worker env warehouse_id = do
  workers ← gets (receiving_workers warehouse_id)
  n ← randint env 0 (length workers - 1)
  pure (one_of n workers)

-- The locations among which `_get_receiving_location` chooses.
unfoldable pub receiving_locations : String → Db → List Location
receiving_locations warehouse_id db =
    filter (λ l. l.warehouse_id == warehouse_id && l.status == "ACTIVE") db.locations

unfoldable pub get_receiving_location : Env → String → Stateful Db (Option Location)
get_receiving_location env warehouse_id = do
  locations ← gets (receiving_locations warehouse_id)
  n ← randint env 0 (length locations - 1)
  pure (one_of n locations)

unfoldable pub receiving_row : String → Shipment → Worker → Location → ℕ → ReceivingTask
receiving_row task_id x worker location task_time = record {
  task_id = task_id;
  warehouse_id = x.warehouse_id;
  shipment_id = x.shipment_id;
  location = some location.location_id;
  quantity = x.total_quantity;
  expected_quantity = x.total_quantity;
  received_quantity = none;
  priority = "HIGH";
  status = "CREATED";
  assigned_worker_id = some worker.worker_id;
  estimated_minutes = 30;
  actual_minutes = none;
  created_at = some task_time;
  assigned_at = some task_time;
  task_started_at = none;
  task_completed_at = none;
  completed_at = none;
  created_by = "SYSTEM";
  started_by = none;
  completed_by = none;
  dock_location = "DOCK-001";
  correlation_id = x.correlation_id;
}

abbrev pub mark_created : ℕ → Shipment → Shipment
mark_created task_time x = record x { receiving_task_created = true; updated_at = some task_time }

unfoldable pub receiving_created_payload : ReceivingTask → Worker → ℕ → Fields
receiving_created_payload t worker task_time = field "event_type" (text "ReceivingTaskCreated") (
    field "occurred_at" (time task_time)
      (field "receiving_task" (dict summary) (field "correlation_id" (text t.correlation_id) end)))
  where
    summary : Fields
    summary = field "task_id" (text t.task_id) (
        field "shipment_id" (text t.shipment_id) (
          field "warehouse_id" (text t.warehouse_id) (
            field "worker_id" (text worker.worker_id) (
              field "dock_location" (text t.dock_location) (
                field "location_id" (text_or_null t.location) (
                  field "expected_quantity" (num t.expected_quantity)
                    (field "status" (text "CREATED") end)))))))

-- The task, the mark on its shipment, and the event.
unfoldable pub write_receiving : Env → ReceivingTask → Worker → ℕ → Stateful Db (Unit {0})
write_receiving env t worker task_time = do
  insert_receiving_task t
  update_shipment t.shipment_id (mark_created task_time)
  publish env "ReceivingTaskCreated" "WAREHOUSE_TASK" t.task_id t.correlation_id
      (receiving_created_payload t worker task_time)
  pure tt

-- The choices for a shipment, and what is written for it.
unfoldable pub receive_shipment : Env → Shipment → Stateful Db (Unit {0})
receive_shipment env x = do
  minutes ← randint env 10 120
  available ← get_available_receiving_worker env x.warehouse_id
  worker ← or_raise (failure "No receiving worker available") available
  active ← get_receiving_location env x.warehouse_id
  location ← or_raise (failure "No active warehouse location found") active
  task_id ← drawn_id next_task_id
  write_receiving env
      (receiving_row task_id x worker location (get_receiving_task_time env.now x minutes)) worker
      (get_receiving_task_time env.now x minutes)

-- `generate_receiving_task_created`
unfoldable pub generate_receiving_task_created : Env → Stateful Db (Unit {0})
generate_receiving_task_created env = transaction (do
  found ← gets (find_delivered env)
  x ← or_raise (failure "No delivered shipment available") found
  receive_shipment env x)

abbrev pub is_created : ReceivingTask → Bool
is_created t = t.status == "CREATED"

-- The task of the id, or else the newest of the run.
unfoldable pub find_receiving : Env → Option String → Db → Option ReceivingTask
find_receiving env (some task_id) db =
    find (λ t. has_receiving_id task_id t && is_created t) db.receiving_tasks
find_receiving env none db = first (
    sort_by (λ a b. time_desc a.created_at b.created_at)
      (filter (λ t. is_created t && of_run env t.correlation_id) db.receiving_tasks))

-- `_get_task_started_time`, behind the number of minutes that it draws.
unfoldable pub get_task_started_time : ℕ → ReceivingTask → ℕ → ℕ
get_task_started_time now t minutes =
    max_time t.assigned_at (max_time t.created_at now) + minutes * microseconds_per_minute

abbrev pub start_receiving_task : ℕ → String → ReceivingTask → ReceivingTask
start_receiving_task started_at worker_id t = record t {
  status = "STARTED";
  task_started_at = some started_at;
  started_by = some worker_id;
}

unfoldable pub receiving_started_payload : ReceivingTask → String → ℕ → Fields
receiving_started_payload t worker_id started_at =
    field "event_type" (text "ReceivingTaskStarted") (
      field "occurred_at" (time started_at) (
        field "receiving_task" (dict summary) (field "correlation_id" (text t.correlation_id) end)))
  where
    summary : Fields
    summary = field "task_id" (text t.task_id) (
        field "shipment_id" (text t.shipment_id) (
          field "warehouse_id" (text t.warehouse_id) (
            field "worker_id" (text worker_id) (
              field "quantity" (num t.quantity)
                (field "status" (text "STARTED") (field "started_at" (time started_at) end))))))

-- What is written for a task.
unfoldable pub start_receiving : Env → ReceivingTask → String → ℕ → Stateful Db (Unit {0})
start_receiving env t worker_id started_at = do
  update_receiving_task t.task_id (start_receiving_task started_at worker_id)
  update_worker worker_id (λ w. record w { current_status = "BUSY" })
  update_shipment t.shipment_id
      (λ x. record x { shipment_status = "RECEIVING"; updated_at = some started_at })
  publish env "ReceivingTaskStarted" "WAREHOUSE_TASK" t.task_id t.correlation_id
      (receiving_started_payload t worker_id started_at)
  pure tt

-- `generate_receiving_task_started`
unfoldable pub generate_receiving_task_started : Env → Option String → Stateful Db (Unit {0})
generate_receiving_task_started env task_id = transaction (do
  found ← gets (find_receiving env (given task_id))
  t ← or_raise (failure "No CREATED receiving task found") found
  worker_id ←
      or_raise (failure "Receiving task has no worker assigned") (given t.assigned_worker_id)
  minutes ← randint env 5 45
  start_receiving env t worker_id (get_task_started_time env.now t minutes))
