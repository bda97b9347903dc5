-- ===== src/Stock/PackingCompleted.antt =====
-- simulator/generators/warehouse/packing_completed.py
use Prim.Native.String.{◌++◌ as text_append}
use daemon_supply_chain.Common.{
  ℕ, ◌+◌, ◌*◌, String, ◌==◌, nat_eq, ltb, leb, if◌then◌else◌, Bool, true, false, ◌&&◌, ◌||◌, Option,
  none, some, List, [], ◌∷◌, ◌++◌, map, elem, filter, find, failure,
}
use daemon_supply_chain.Common.Stateful.{
  Stateful, pure, gets, change, or_raise, transaction, ◌>>=◌, ◌>>◌,
}
use daemon_supply_chain.Values.{num, text, time, dict, Fields, end, field}
use daemon_supply_chain.Timing.{microseconds_per_minute}
use daemon_supply_chain.Common.Sorting.{sort_by}
use daemon_supply_chain.Stock.{Task, PackingTask, Package, PackageItem, Worker, Db, Env}
use daemon_supply_chain.Stock.Queries.{
  given, first, has_packing_id, update_packing_task, update_worker, insert_package,
  set_order_status, fresh_text, randint, publish,
}
use daemon_supply_chain.Stock.PackingTasks.{is_picked}

abbrev pub is_packable : PackingTask → Bool
is_packable t = elem t.status ("CREATED" ∷ "PACKING" ∷ "STARTED" ∷ "COMPLETED" ∷ [])

-- `CASE status …`
abbrev pub status_rank : String → ℕ
status_rank status =
    if status == "STARTED"
    then 0
    else if status == "PACKING"
    then 1
    else if status == "CREATED"
    then 2
    else 3

abbrev pub rank_le : PackingTask → PackingTask → Bool
rank_le a b =
    ltb (status_rank a.status) (status_rank b.status)
    || (nat_eq (status_rank a.status) (status_rank b.status) && leb a.created_at b.created_at)

unfoldable pub find_packable : Option String → Db → Option PackingTask
find_packable none db = first (sort_by rank_le (filter is_packable db.packing_tasks))
find_packable (some task_id) db =
    find (λ t. has_packing_id task_id t && is_packable t) db.packing_tasks

-- The package of the order and the correlation that was packed last.
unfoldable pub existing_package : PackingTask → Db → Option Package
existing_package task db = first (
    sort_by (λ a b. leb b.packed_at a.packed_at)
      (filter (λ p. p.order_id == task.order_id && p.correlation_id == task.correlation_id)
        db.packages))

unfoldable pub find_worker : Env → String → Db → Option Worker
find_worker env warehouse_id db = first (
    sort_by (λ a b. env.collate a.worker_id b.worker_id)
      (filter (λ w. w.warehouse_id == warehouse_id && w.current_status == "AVAILABLE") db.workers))

-- The completed picking tasks of an order.
unfoldable pub picking_items : String → Db → List Task
picking_items order_id db = filter (λ t. t.order_id == order_id && is_picked t) db.tasks

abbrev pub package_item : String → Task → PackageItem
package_item package_id t = record {
  package_id = package_id;
  product_id = t.product_id;
  quantity = t.quantity;
}

-- What the completion of a task has drawn: worker, times and package.
pub record Packing : Type 0 where
  pub worker_id : String
  pub start_time : ℕ
  pub duration : ℕ
  pub completed_time : ℕ
  pub package_id : String

unfoldable pub package_row : PackingTask → Packing → ℕ → Package
package_row task p weight_grams = record {
  package_id = p.package_id;
  order_id = task.order_id;
  warehouse_id = task.warehouse_id;
  package_type = "STANDARD";
  total_items = 1;
  total_quantity = task.quantity;
  weight_grams = weight_grams;
  package_status = "PACKED";
  packed_by = p.worker_id;
  packed_at = p.completed_time;
  correlation_id = task.correlation_id;
}

abbrev pub complete_packing_task : Packing → PackingTask → PackingTask
complete_packing_task p t = record t {
  status = "COMPLETED";
  assigned_worker_id = some p.worker_id;
  task_started_at = some p.start_time;
  task_completed_at = some p.completed_time;
  completed_at = some p.completed_time;
  completed_by = some p.worker_id;
  actual_minutes = some p.duration;
}

unfoldable pub packed_payload : PackingTask → Packing → Fields
packed_payload task p = field "event_type" (text "PackingCompleted") (
    field "occurred_at" (time p.completed_time)
      (field "packing" (dict summary) (field "correlation_id" (text task.correlation_id) end)))
  where
    summary : Fields
    summary = field "task_id" (text task.task_id) (
        field "package_id" (text p.package_id) (
          field "order_id" (text task.order_id) (
            field "warehouse_id" (text task.warehouse_id) (
              field "worker_id" (text p.worker_id)
                (field "quantity" (num task.quantity) (field "status" (text "COMPLETED") end))))))

-- `INSERT INTO package_items` for each picking task of the order; their key is a sequence.
abbrev pub insert_items : String → String → Stateful Db (Unit {0})
insert_items package_id order_id = change (λ s. record s {
  package_items = s.package_items ++ map (package_item package_id) (picking_items order_id s);
})

-- What the generator returns: the task, its package, and whether it was completed before.
pub record PackedReport : Type 0 where
  pub task_id : String
  pub package_id : String
  pub already : Bool

abbrev pub packed_report : PackingTask → String → Bool → PackedReport
packed_report task package_id already = record {
  task_id = task.task_id;
  package_id = package_id;
  already = already;
}

-- What is written for a packing, behind its package.
unfoldable pub write_packing : Env → PackingTask → Packing → Stateful Db PackedReport
write_packing env task p = do
  insert_items p.package_id task.order_id
  update_packing_task task.task_id (complete_packing_task p)
  set_order_status task.order_id "PACKED"
  update_worker p.worker_id (λ w. record w { current_status = "AVAILABLE" })
  publish env "PackingCompleted" "ORDER" task.order_id task.correlation_id (packed_payload task p)
  pure (packed_report task p.package_id false)

-- The random numbers, the package, and the rest. The weight is drawn in thousandths of a kilogram.
unfoldable pub pack : Env → PackingTask → Worker → Stateful Db PackedReport
pack env task worker = randint env 5 20 >>= λ duration. fresh_text env >>= λ suffix.
    randint env 500 10000 >>= λ weight.
    insert_package (package_row task (packing duration suffix) weight)
    >> write_packing env task (packing duration suffix)
  where
    packing : ℕ → String → Packing
    packing duration suffix = record {
      worker_id = worker.worker_id;
      start_time = env.now;
      duration = duration;
      completed_time = env.now + duration * microseconds_per_minute;
      package_id = text_append "PKG-" suffix;
    }

-- A task that is completed is answered with its package.
unfoldable pub pack_once : Env → PackingTask → Bool → Stateful Db PackedReport
pack_once env task true = do
  found ← gets (existing_package task)
  parcel ← or_raise (failure "Packing task is completed but its package is missing") found
  pure (packed_report task parcel.package_id true)
pack_once env task false = do
  found ← gets (find_worker env task.warehouse_id)
  worker ← or_raise (failure "No packing worker available") found
  pack env task worker

unfoldable pub complete_packable : Env → Option String → Stateful Db PackedReport
complete_packable env task_id = do
  found ← gets (find_packable task_id)
  task ← or_raise (failure "No CREATED PACKING task found") found
  pack_once env task (task.status == "COMPLETED")

-- `generate_packing_completed`
unfoldable pub generate_packing_completed : Env → Option String → Stateful Db PackedReport
generate_packing_completed env task_id = transaction (complete_packable env (given task_id))
