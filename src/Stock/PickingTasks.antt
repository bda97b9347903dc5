-- ===== src/Stock/PickingTasks.antt =====
-- simulator/generators/warehouse/picking_task_created.py and picking_task_started.py
use Prim.Native.String.{◌++◌ as text_append}
use daemon_supply_chain.Common.{
  ℕ, String, ◌==◌, leb, Bool, ◌&&◌, not, Option, none, some, List, [], ◌∷◌, length, any, filter,
  find, failure,
}
use daemon_supply_chain.Common.Stateful.{
  Stateful, pure, gets, or_raise, raise_if, each, transaction, ◌>>=◌, ◌>>◌,
}
use daemon_supply_chain.Values.{num, text, time, list, dict, Fields, end, field}
use daemon_supply_chain.Common.Sorting.{sort_by}
use daemon_supply_chain.Stock.{Allocation, Task, Db, Env}
use daemon_supply_chain.Stock.Queries.{
  given, first, items_of, text_or_null, has_task_id, update_task, insert_task, fresh_text, randint,
  publish,
}

abbrev pub is_reserved : Allocation → Bool
is_reserved a = a.allocation_status == "RESERVED"

abbrev pub is_picking : Task → Bool
is_picking t = t.task_type == "PICKING"

-- With an order, its allocations that have no picking task; without one, those of every order.
unfoldable pub find_reserved : Env → Option String → Db → List Allocation
find_reserved env none db =
    sort_by (λ a b. leb a.allocated_at b.allocated_at) (filter is_reserved db.allocations)
find_reserved env (some order_id) db =
    sort_by (λ a b. env.collate a.allocation_id b.allocation_id) (filter waits db.allocations)
  where
    waits : Allocation → Bool
    waits a =
        a.order_id == order_id
        && is_reserved a
        && not (any (λ t. t.allocation_id == a.allocation_id && is_picking t) db.tasks)

unfoldable pub picking_task : Env → Allocation → Allocation → String → ℕ → Task
picking_task env head a suffix estimated_minutes = record {
  task_id = text_append "PICK-" suffix;
  task_type = "PICKING";
  warehouse_id = head.warehouse_id;
  product_id = a.product_id;
  location = a.location_id;
  quantity = a.allocated_quantity;
  priority = "NORMAL";
  status = "CREATED";
  assigned_worker_id = none;
  estimated_minutes = estimated_minutes;
  actual_minutes = none;
  created_at = env.now;
  completed_at = none;
  task_started_at = none;
  task_completed_at = none;
  started_by = none;
  completed_by = none;
  correlation_id = head.correlation_id;
  expected_quantity = a.allocated_quantity;
  order_id = head.order_id;
  allocation_id = a.allocation_id;
}

-- One round of the loop; `head` is the first allocation, which gives order, warehouse and correlation.
unfoldable pub create_picking_task : Env → Allocation → Allocation → Stateful Db (List Task)
create_picking_task env head a = do
  suffix ← fresh_text env
  estimated_minutes ← randint env 5 20
  insert_task (picking_task env head a suffix estimated_minutes)
  pure (picking_task env head a suffix estimated_minutes ∷ [])

abbrev pub task_fields : Task → Fields
task_fields t = field "task_id" (text t.task_id) (
    field "allocation_id" (text t.allocation_id) (
      field "product_id" (text t.product_id) (
        field "location_id" (text_or_null t.location)
          (field "quantity" (num t.quantity) (field "status" (text "CREATED") end)))))

unfoldable pub tasks_payload : Env → Allocation → List Task → Fields
tasks_payload env head tasks = field "event_type" (text "PickingTaskCreated") (
    field "occurred_at" (time env.now)
      (field "picking" (dict summary) (field "correlation_id" (text head.correlation_id) end)))
  where
    summary : Fields
    summary = field "order_id" (text head.order_id) (
        field "warehouse_id" (text head.warehouse_id) (
          field "tasks" (list (items_of task_fields tasks))
            (field "task_count" (num (length tasks)) end)))

unfoldable pub create_tasks : Env → Option String → Stateful Db (String × List Task)
create_tasks env order_id = do
  allocations ← gets (find_reserved env order_id)
  head ← or_raise (failure "No RESERVED allocations found") (first allocations)
  tasks ← each (create_picking_task env head) allocations
  publish env "PickingTaskCreated" "ORDER" head.order_id head.correlation_id
      (tasks_payload env head tasks)
  pure (head.order_id, tasks)

-- `generate_picking_task_created`
unfoldable pub generate_picking_task_created :
    Env → Option String → Stateful Db (String × List Task)
generate_picking_task_created env order_id = transaction (create_tasks env (given order_id))

abbrev pub start_task : Env → Task → Task
start_task env t = record t { status = "STARTED"; task_started_at = some env.now }

unfoldable pub started_payload : Env → Task → Fields
started_payload env t = field "eventType" (text "PickingTaskStarted") (
    field "occurredAt" (time env.now)
      (field "pickingTask" (dict summary) (field "correlationId" (text t.correlation_id) end)))
  where
    summary : Fields
    summary = field "taskId" (text t.task_id) (
        field "warehouseId" (text t.warehouse_id) (
          field "workerId" (text_or_null t.assigned_worker_id)
            (field "status" (text "STARTED") end)))

-- `generate_picking_task_started`
unfoldable pub generate_picking_task_started : Env → String → Stateful Db (Unit {0})
generate_picking_task_started env task_id = transaction (do
  found ← gets (λ s. find (λ t. has_task_id task_id t && is_picking t) s.tasks)
  task ← or_raise (failure "Picking task not found") found
  raise_if (not (task.status == "CREATED")) (failure "Picking task must be CREATED")
  update_task task_id (start_task env)
  publish env "PickingTaskStarted" "WAREHOUSE_TASK" task_id task.correlation_id
      (started_payload env task)
  pure tt)
