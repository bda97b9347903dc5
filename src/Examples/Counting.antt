-- ===== src/Examples/Counting.antt =====
-- Inputs at which the theorems on cycle counts and adjustments apply.
use daemon_supply_chain.Common.{
  ℕ, String, ◌≡◌, refl, true, false, Option, none, some, List, [], ◌∷◌, arith, map, Result, ok, err,
  failure,
}
use daemon_supply_chain.Common.Integers.{negsuc, pos}
use daemon_supply_chain.Common.Stateful.{Holds}
use daemon_supply_chain.Stock.{CountTask, Db}
use daemon_supply_chain.Stock.Ledger.{entry, IsSound}
use daemon_supply_chain.Stock.Counts.{generate_cycle_count_created}
use daemon_supply_chain.Stock.TaskStarted.{AnyTask, of_count, generate_task_started}
use daemon_supply_chain.Stock.Stuck.{generate_task_started_stuck}
use daemon_supply_chain.Stock.Adjusted.{generate_inventory_adjusted}
use daemon_supply_chain.Stock.Adjustments.{
  IsAdjustment, generate_inventory_adjusted-IsAdjustment, generate_inventory_adjusted_unexplained,
}
use daemon_supply_chain.Examples.Setup.{noon}
use daemon_supply_chain.Examples.Stocks.{stock_env, shelf, stocked, stocked-IsSoundDb}
use daemon_supply_chain.Examples.Inbound.{clerk}

-- A count of the first shelf.
abbrev count : String → String → CountTask
count task_id correlation_id = record {
  task_id = task_id;
  warehouse_id = "WH-1";
  product_id = "PROD-1";
  location = "LOC-1";
  quantity = 4;
  expected_quantity = 4;
  received_quantity = none;
  discrepancy_quantity = pos 0;
  adjustment_processed = false;
  priority = "MEDIUM";
  status = "CREATED";
  assigned_worker_id = some "W-1";
  estimated_minutes = 10;
  actual_minutes = none;
  created_at = noon;
  assigned_at = noon;
  task_started_at = none;
  task_completed_at = none;
  completed_at = none;
  created_by = "WMS";
  started_by = none;
  completed_by = none;
  correlation_id = correlation_id;
}

abbrev countable : Db
countable = record stocked {
  inventory = record (shelf 1 4) { inventory_status = "RECEIVED" } ∷ [];
  workers = clerk ∷ [];
}

abbrev created : Result String × Db
created = generate_cycle_count_created stock_env countable

generate_task_started_stuck_example :
    generate_task_started stock_env created.1 ≡ (err (failure "Worker not available"), created.1)
unfolding generate_cycle_count_created daemon_supply_chain.Common.Stateful.transaction
    daemon_supply_chain.Stock.Counts.create_count daemon_supply_chain.Common.Stateful.◌>>=◌
    daemon_supply_chain.Stock.Counts.find_countable daemon_supply_chain.Stock.Counts.count_at
    daemon_supply_chain.Common.Stateful.◌>>◌ daemon_supply_chain.Stock.Counts.is_counted
    daemon_supply_chain.Stock.Counts.count_workers daemon_supply_chain.Stock.Counts.write_count
    daemon_supply_chain.Stock.Queries.insert_count_task daemon_supply_chain.Stock.Queries.publish
    daemon_supply_chain.Outbox.publish_event daemon_supply_chain.Outbox.publish_row
    daemon_supply_chain.Outbox.insert_row daemon_supply_chain.Stock.Counts.count_row
    daemon_supply_chain.Ids.next_id daemon_supply_chain.Ids.format_id
    daemon_supply_chain.Ids.str_number daemon_supply_chain.Ids.zfill
    daemon_supply_chain.Outbox.earliest daemon_supply_chain.Outbox.published_row
    daemon_supply_chain.Outbox.same_cause daemon_supply_chain.Stock.Counts.count_created_payload
    daemon_supply_chain.Stock.TaskStarted.next_created
generate_task_started_stuck_example =
    generate_task_started_stuck stock_env stock_env countable created.1 "TASK-000000001"
      (of_count (count "TASK-000000001" "B")) refl refl refl

-- A count that found one piece less.
abbrev miscounted : CountTask
miscounted = record (count "TASK-1" "corr-1") {
  status = "COMPLETED";
  received_quantity = some 3;
  discrepancy_quantity = negsuc 0;
}

abbrev counted : Db
counted = record stocked { count_tasks = miscounted ∷ [] }

generate_inventory_adjusted-IsAdjustment_example :
    Holds (IsAdjustment stock_env) counted (generate_inventory_adjusted stock_env counted)
generate_inventory_adjusted-IsAdjustment_example =
    (generate_inventory_adjusted-IsAdjustment stock_env).at counted

abbrev adjusted : Result (Unit {0}) × Db
adjusted = generate_inventory_adjusted stock_env counted

generate_inventory_adjusted_unexplained_example :
    ¬ IsSound (map entry stocked.inventory) adjusted.1.inventory adjusted.1.transactions
unfolding generate_inventory_adjusted daemon_supply_chain.Stock.Adjusted.find_discrepancy
    daemon_supply_chain.Stock.CountsCompleted.counted_stock
    daemon_supply_chain.Common.Stateful.transaction daemon_supply_chain.Stock.Adjusted.adjust
    daemon_supply_chain.Common.Stateful.◌>>=◌ daemon_supply_chain.Stock.Adjusted.adjust_to
    daemon_supply_chain.Stock.Adjusted.write_adjustment daemon_supply_chain.Common.Stateful.◌>>◌
    daemon_supply_chain.Stock.Adjusted.insert_adjustment daemon_supply_chain.Stock.Queries.publish
    daemon_supply_chain.Outbox.publish_event daemon_supply_chain.Outbox.publish_row
    daemon_supply_chain.Outbox.insert_row
generate_inventory_adjusted_unexplained_example =
    generate_inventory_adjusted_unexplained (map entry stocked.inventory) stock_env counted
      adjusted.1 miscounted (shelf 1 4) 3 stocked-IsSoundDb.0 refl refl refl (omega arith) refl
