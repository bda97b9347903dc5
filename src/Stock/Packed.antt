-- ===== src/Stock/Packed.antt =====
-- packing_task_created.py: an order gets one packing task.
use daemon_supply_chain.Common.{String, ◌≡◌, leb, true, Option, none, some, [], ◌∷◌, ◌++◌, length}
use daemon_supply_chain.Stock.{Task, PackingTask, Db, Env}
use daemon_supply_chain.Stock.Queries.{first}
use daemon_supply_chain.Stock.PackingTasks.{
  find_picked, pending_tasks, find_packing_task, total_quantity, PackingReport, packing_report,
}

-- The order of the first picked task has a packing task, which is the one reported; a new one has the
-- whole quantity that was picked.
pub record IsPacking (env : Env) (order_id : Option String) (s : Db) (r : PackingReport) (t : Db)
    : Type 0 where
  pub head : Task
  pub task : PackingTask
  pub picked : first (find_picked env order_id s) ≡ some head
  pub all_done : leb (length (pending_tasks head.order_id s)) 0 ≡ true
  pub untouched : t.tasks ≡ s.tasks
  pub has_task : find_packing_task head.order_id t ≡ some task
  pub reported : task.task_id ≡ r.task_id
  pub of_order : head.order_id ≡ r.order_id
  pub whole :
      find_packing_task head.order_id s ≡ none
      → task.quantity ≡ total_quantity (find_picked env order_id s)

module _ (env : Env) (order_id : Option String) where
  -- What is written for a new task.
  IsWritten : PackingTask → Db → PackingReport → Db → Type 0
  IsWritten x s r t =
      (t.tasks ≡ s.tasks)
      × (t.packing_tasks ≡ s.packing_tasks ++ x ∷ [])
      × (r ≡ packing_report x "CREATED")
