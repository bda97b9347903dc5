-- ===== src/Stock/PackingTasks.antt =====
-- simulator/generators/warehouse/packing_task_created.py and packing_task_started.py
use Prim.Native.String.{◌++◌ as text_append}
use daemon_supply_chain.Common.{
  ℕ, ◌+◌, String, ◌==◌, leb, Bool, ◌&&◌, not, Option, none, some, List, [], ◌∷◌, length, filter,
  find, failure,
}
use daemon_supply_chain.Common.Stateful.{
  Stateful, pure, gets, or_raise, raise_if, transaction, ◌>>=◌, ◌>>◌,
}
use daemon_supply_chain.Values.{num, text, time, dict, Fields, end, field}
use daemon_supply_chain.Common.Sorting.{sort_by}
use daemon_supply_chain.Stock.{Task, PackingTask, Db, Env}
use daemon_supply_chain.Stock.Queries.{
  given, first, text_or_null, time_le, has_packing_id, update_packing_task, insert_packing_task,
  set_order_status, fresh_text, randint, publish,
}
use daemon_supply_chain.Stock.PickingTasks.{is_picking}

abbrev pub is_picked : Task → Bool
is_picked t = is_picking t && t.status == "COMPLETED"

unfoldable pub find_picked : Env → Option String → Db → List Task
find_picked env none db =
    sort_by (λ a b. time_le a.task_completed_at b.task_completed_at) (filter is_picked db.tasks)
find_picked env (some order_id) db =
    sort_by (λ a b. env.collate a.task_id b.task_id)
      (filter (λ t. t.order_id == order_id && is_picked t) db.tasks)

-- The picking tasks of the order that are not completed.
unfoldable pub pending_tasks : String → Db → List Task
pending_tasks order_id db =
    filter (λ t. t.order_id == order_id && is_picking t && not (t.status == "COMPLETED")) db.tasks

unfoldable pub find_packing_task : String → Db → Option PackingTask
find_packing_task order_id db = find (λ t. t.order_id == order_id) db.packing_tasks

-- `sum(task["quantity"] …)`
abbrev pub total_quantity : List Task → ℕ
total_quantity [] = 0
total_quantity (t ∷ ts) = t.quantity + total_quantity ts

unfoldable pub packing_task : Env → Task → ℕ → String → ℕ → PackingTask
packing_task env head quantity suffix estimated_minutes = record {
  task_id = text_append "PACK-" suffix;
  warehouse_id = head.warehouse_id;
  order_id = head.order_id;
  picking_task_id = head.task_id;
  quantity = quantity;
  priority = "NORMAL";
  status = "CREATED";
  expected_quantity = quantity;
  estimated_minutes = estimated_minutes;
  created_at = env.now;
  correlation_id = head.correlation_id;
  assigned_worker_id = none;
  actual_minutes = none;
  task_started_at = none;
  task_completed_at = none;
  completed_at = none;
  started_by = none;
  completed_by = none;
}

unfoldable pub packing_payload : Env → PackingTask → Fields
packing_payload env t = field "event_type" (text "PackingTaskCreated") (
    field "occurred_at" (time env.now)
      (field "packing_task" (dict summary) (field "correlation_id" (text t.correlation_id) end)))
  where
    summary : Fields
    summary = field "task_id" (text t.task_id) (
        field "order_id" (text t.order_id) (
          field "warehouse_id" (text t.warehouse_id)
            (field "quantity" (num t.quantity) (field "status" (text "CREATED") end))))

-- What the generator returns: the task, its order, and the status that it reports.
pub record PackingReport : Type 0 where
  pub task_id : String
  pub order_id : String
  pub status : String

abbrev pub packing_report : PackingTask → String → PackingReport
packing_report t status = record { task_id = t.task_id; order_id = t.order_id; status = status }

-- The task is written, the order is set to PACKING, and the event is published.
unfoldable pub write_packing_task : Env → PackingTask → Stateful Db PackingReport
write_packing_task env t = do
  insert_packing_task t
  set_order_status t.order_id "PACKING"
  publish env "PackingTaskCreated" "ORDER" t.order_id t.correlation_id (packing_payload env t)
  pure (packing_report t "CREATED")

-- The order's packing task, or a new one.
unfoldable pub existing_or_new :
    Env → Task → List Task → Option PackingTask → Stateful Db PackingReport
existing_or_new env head picking_tasks (some existing) =
    pure
      (record { task_id = existing.task_id; order_id = head.order_id; status = "ALREADY_EXISTS" })
existing_or_new env head picking_tasks none = do
  estimated_minutes ← randint env 5 20
  suffix ← fresh_text env
  write_packing_task env
      (packing_task env head (total_quantity picking_tasks) suffix estimated_minutes)

unfoldable pub create_packing : Env → Option String → Stateful Db PackingReport
create_packing env order_id = do
  picking_tasks ← gets (find_picked env order_id)
  head ← or_raise (failure "No COMPLETED PICKING tasks found") (first picking_tasks)
  pending ← gets (pending_tasks head.order_id)
  raise_if (not (leb (length pending) 0)) (failure "Picking not completed completely")
  existing ← gets (find_packing_task head.order_id)
  existing_or_new env head picking_tasks existing

-- `generate_packing_task_created`
unfoldable pub generate_packing_task_created : Env → Option String → Stateful Db PackingReport
generate_packing_task_created env order_id = transaction (create_packing env (given order_id))

abbrev pub start_packing : Env → PackingTask → PackingTask
start_packing env t = record t { status = "STARTED"; task_started_at = some env.now }

unfoldable pub packing_started_payload : Env → PackingTask → Fields
packing_started_payload env t = field "eventType" (text "PackingTaskStarted") (
    field "occurredAt" (time env.now)
      (field "packingTask" (dict summary) (field "correlationId" (text t.correlation_id) end)))
  where
    summary : Fields
    summary = field "taskId" (text t.task_id) (
        field "warehouseId" (text t.warehouse_id) (
          field "workerId" (text_or_null t.assigned_worker_id)
            (field "status" (text "STARTED") end)))

-- `generate_packing_task_started`
unfoldable pub generate_packing_task_started : Env → String → Stateful Db (Unit {0})
generate_packing_task_started env task_id = transaction (do
  found ← gets (λ s. find (has_packing_id task_id) s.packing_tasks)
  task ← or_raise (failure "Packing task not found") found
  raise_if (not (task.status == "CREATED")) (failure "Packing task must be CREATED")
  update_packing_task task_id (start_packing env)
  publish env "PackingTaskStarted" "WAREHOUSE_TASK" task_id task.correlation_id
      (packing_started_payload env task)
  pure tt)
