-- ===== src/Stock/CountsCompleted.antt =====
-- simulator/generators/inventory/cycle_count_completed.py
use daemon_supply_chain.Common.{
  ℕ, zero, suc, ◌+◌, ◌-◌, String, Bool, ◌==◌, ◌&&◌, Option, none, some, [], ◌∷◌, ◌++◌, filter, find,
  failure,
}
use daemon_supply_chain.Common.Integers.{sub_ℕ}
use daemon_supply_chain.Common.Stateful.{
  Stateful, pure, gets, change, or_raise, transaction, ◌>>=◌, ◌>>◌,
}
use daemon_supply_chain.Common.Sorting.{sort_by}
use daemon_supply_chain.Values.{num, text, time, dict, Fields, end, field}
use daemon_supply_chain.Stock.{Inventory, CountTask, Productivity, Db, Env}
use daemon_supply_chain.Stock.Queries.{
  first, time_le, text_or_null, int_value, update_worker, update_count_task, randint, publish,
}

unfoldable pub find_started_count : Db → Option CountTask
find_started_count db = first (
    sort_by (λ a b. time_le a.task_started_at b.task_started_at)
      (filter (λ t. t.status == "STARTED") db.count_tasks))

abbrev pub is_at : Option String → String → Bool
is_at none id = Bool.false
is_at (some here) id = here == id

-- The row that a count is about.
unfoldable pub counted_stock : CountTask → Db → Option Inventory
counted_stock t db =
    find
      (λ r.
        r.product_id == t.product_id
        && r.warehouse_id == t.warehouse_id
        && is_at r.location_id t.location)
      db.inventory

-- `max(0, expected_quantity + variance)`, by the position in [0, 0, 0, -1, 1] that was drawn.
unfoldable pub physical_count : ℕ → ℕ → ℕ
physical_count expected zero = expected
physical_count expected (suc zero) = expected
physical_count expected (suc (suc zero)) = expected
physical_count expected (suc (suc (suc zero))) = expected - 1
physical_count expected (suc (suc (suc (suc n)))) = expected + 1

abbrev pub complete_count : ℕ → ℕ → ℕ → ℕ → Option String → CountTask → CountTask
complete_count expected actual minutes now worker_id t = record t {
  status = "COMPLETED";
  received_quantity = some actual;
  discrepancy_quantity = sub_ℕ actual expected;
  actual_minutes = some minutes;
  task_completed_at = some now;
  completed_at = some now;
  completed_by = worker_id;
}

-- `UPDATE workers … WHERE worker_id = %s`
abbrev pub free_worker : Option String → Stateful Db (Unit {0})
free_worker none = pure tt
free_worker (some id) = update_worker id (λ w. record w { current_status = "AVAILABLE" })

unfoldable pub productivity_row : CountTask → ℕ → ℕ → ℕ → ℕ → Productivity
productivity_row t expected minutes accuracy productivity = record {
  worker_id = t.assigned_worker_id;
  task_id = t.task_id;
  task_type = "CYCLE_COUNT";
  warehouse_id = t.warehouse_id;
  units_processed = expected;
  working_minutes = minutes;
  accuracy_score = accuracy;
  productivity_score = productivity;
  correlation_id = t.correlation_id;
}

abbrev pub insert_productivity : Productivity → Stateful Db (Unit {0})
insert_productivity row = change (λ s. record s { productivity = s.productivity ++ row ∷ [] })

unfoldable pub count_completed_payload : Env → CountTask → ℕ → ℕ → Fields
count_completed_payload env t expected actual = field "eventType" (text "CycleCountCompleted") (
    field "occurredAt" (time env.wall_clock)
      (field "cycleCount" (dict summary) (field "correlationId" (text t.correlation_id) end)))
  where
    summary : Fields
    summary = field "taskId" (text t.task_id) (
        field "warehouseId" (text t.warehouse_id) (
          field "locationId" (text t.location) (
            field "productId" (text t.product_id) (
              field "workerId" (text_or_null t.assigned_worker_id) (
                field "expectedQuantity" (num expected) (
                  field "actualQuantity" (num actual) (
                    field "discrepancy" (int_value env (sub_ℕ actual expected))
                      (field "status" (text "COMPLETED") end))))))))

-- What is written for a task and the quantities expected and counted.
unfoldable pub write_completed : Env → CountTask → ℕ → ℕ → Stateful Db (Unit {0})
write_completed env t expected actual = do
  minutes ← randint env 10 30
  update_count_task t.task_id
      (complete_count expected actual minutes env.wall_clock t.assigned_worker_id)
  free_worker t.assigned_worker_id
  drawn ← randint env 70 100
  insert_productivity (
      productivity_row t expected minutes (env.accuracy_score expected actual)
        (env.productivity_score (env.accuracy_score expected actual) drawn))
  publish env "CycleCountCompleted" "WAREHOUSE_TASK" t.task_id t.correlation_id
      (count_completed_payload env t expected actual)
  pure tt

unfoldable pub complete_started_count : Env → Stateful Db (Unit {0})
complete_started_count env = do
  found ← gets find_started_count
  t ← or_raise (failure "No STARTED cycle count task found") found
  stocked ← gets (counted_stock t)
  row ← or_raise (failure "Inventory record not found") stocked
  variance ← randint env 0 4
  write_completed env t row.on_hand_quantity (physical_count row.on_hand_quantity variance)

-- `generate_cycle_count_completed`
unfoldable pub generate_cycle_count_completed : Env → Stateful Db (Unit {0})
generate_cycle_count_completed env = transaction (complete_started_count env)
