-- ===== src/Examples/Tasks.antt =====
-- Inputs at which the theorems on what is reserved, picked and packed once apply.
use daemon_supply_chain.Common.{
  ℕ, zero, suc, ◌≤◌, All, String, ◌≡◌, refl, true, Bool, Option, none, some, List, [], ◌∷◌, ◌==◌,
  false, arith, map, failure, Result, ok, err,
}
use daemon_supply_chain.Stock.{Inventory, Order, OrderItem, Allocation, Task, Db, Env}
use daemon_supply_chain.Stock.Queries.{given}
use daemon_supply_chain.Stock.Reserve.{generate_inventory_reserved}
use daemon_supply_chain.Stock.Again.{generate_inventory_reserved_twice}
use daemon_supply_chain.Stock.PickingCompleted.{generate_picking_completed}
use daemon_supply_chain.Examples.Setup.{noon}
use daemon_supply_chain.Examples.Stocks.{stock_env, shelf, stocked}

-- An allocation of three pieces, and its task.
abbrev allocation : Allocation
allocation = record {
  allocation_id = "ALLOC-A";
  order_id = "ORD-1";
  warehouse_id = "WH-1";
  product_id = "PROD-1";
  allocated_quantity = 3;
  allocation_status = "ALLOCATED";
  allocated_at = noon;
  correlation_id = "corr-1";
  inventory_id = 1;
  location_id = some "LOC-1";
}

abbrev waiting : Db
waiting = record stocked { allocations = allocation ∷ [] }

abbrev held : Result (String × List Allocation) × Db
held = generate_inventory_reserved stock_env (some "ORD-1") waiting

generate_inventory_reserved_twice_example :
    generate_inventory_reserved stock_env (some "ORD-1") held.1
    ≡ (err (failure "No ALLOCATED inventory found"), held.1)
unfolding generate_inventory_reserved daemon_supply_chain.Common.Stateful.transaction
    daemon_supply_chain.Stock.Reserve.reserve_order daemon_supply_chain.Common.Stateful.◌>>=◌
    daemon_supply_chain.Stock.Reserve.find_allocated daemon_supply_chain.Common.Stateful.each
    daemon_supply_chain.Stock.Reserve.reserve_allocation daemon_supply_chain.Common.Stateful.◌>>◌
    daemon_supply_chain.Stock.Reserve.write_reservation
    daemon_supply_chain.Stock.Queries.insert_reservation daemon_supply_chain.Stock.Queries.publish
    daemon_supply_chain.Outbox.publish_event daemon_supply_chain.Outbox.publish_row
    daemon_supply_chain.Outbox.insert_row
generate_inventory_reserved_twice_example =
    generate_inventory_reserved_twice stock_env "ORD-1" waiting held.1 ("ORD-1", allocation ∷ [])
      refl refl

abbrev started : Task
started = record {
  task_id = "PICK-A";
  task_type = "PICKING";
  warehouse_id = "WH-1";
  product_id = "PROD-1";
  location = some "LOC-1";
  quantity = 3;
  priority = "NORMAL";
  status = "STARTED";
  assigned_worker_id = none;
  estimated_minutes = 5;
  actual_minutes = none;
  created_at = noon;
  completed_at = none;
  task_started_at = some noon;
  task_completed_at = none;
  started_by = none;
  completed_by = none;
  correlation_id = "corr-1";
  expected_quantity = 3;
  order_id = "ORD-1";
  allocation_id = "ALLOC-A";
}

abbrev picking : Db
picking = record stocked {
  inventory = record (shelf 1 4) { reserved_quantity = 3 } ∷ [];
  allocations = record allocation { allocation_status = "RESERVED" } ∷ [];
  tasks = started ∷ [];
}

abbrev picked : Result (String × String) × Db
picked = generate_picking_completed stock_env (some "PICK-A") none picking

abbrev done : Db
done = record stocked {
  tasks = record started { status = "COMPLETED"; task_completed_at = some noon } ∷ [];
}
