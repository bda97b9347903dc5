-- ===== src/Stock/Adjusted.antt =====
-- simulator/generators/inventory/inventory_adjusted.py
use daemon_supply_chain.Common.{
  ℕ, String, Bool, ◌==◌, true, not, ◌&&◌, if◌then◌else◌, Option, none, some, [], ◌∷◌, ◌++◌, any,
  filter, failure, type_error, ok, err,
}
use daemon_supply_chain.Common.Integers.{sub_ℕ, is_zero}
use daemon_supply_chain.Common.Stateful.{
  Stateful, pure, gets, raise, or_raise, transaction, ◌>>=◌, ◌>>◌,
}
use daemon_supply_chain.Common.Sorting.{sort_by}
use daemon_supply_chain.Values.{num, text, time, dict, Fields, end, field}
use daemon_supply_chain.Ids.{next_adjustment_id}
use daemon_supply_chain.Outbox.{unique_violation}
use daemon_supply_chain.Stock.{Inventory, CountTask, Adjustment, Db, Env}
use daemon_supply_chain.Stock.Queries.{
  first, time_le, int_value, update_inventory, update_count_task, drawn_id, publish,
}
use daemon_supply_chain.Stock.CountsCompleted.{counted_stock}

abbrev pub needs_adjustment : CountTask → Bool
needs_adjustment t =
    t.status == "COMPLETED" && not (is_zero t.discrepancy_quantity) && not t.adjustment_processed

unfoldable pub find_discrepancy : Db → Option CountTask
find_discrepancy db = first (
    sort_by (λ a b. time_le a.task_completed_at b.task_completed_at)
      (filter needs_adjustment db.count_tasks))

unfoldable pub adjustment_row : Env → CountTask → ℕ → ℕ → String → Adjustment
adjustment_row env t previous adjusted adjustment_id = record {
  adjustment_id = adjustment_id;
  warehouse_id = t.warehouse_id;
  product_id = t.product_id;
  location_id = t.location;
  task_id = t.task_id;
  previous_quantity = previous;
  adjusted_quantity = adjusted;
  adjustment_difference = sub_ℕ adjusted previous;
  adjustment_reason = "CYCLE_COUNT_VARIANCE";
  adjusted_by = t.assigned_worker_id;
  correlation_id = t.correlation_id;
  created_at = env.wall_clock;
}

unfoldable pub insert_adjustment : Adjustment → Stateful Db (Unit {0})
insert_adjustment row s =
    if any (λ old. old.adjustment_id == row.adjustment_id) s.adjustments
    then (err unique_violation, s)
    else (ok tt, record s { adjustments = s.adjustments ++ row ∷ [] })

abbrev pub set_on_hand : ℕ → ℕ → Inventory → Inventory
set_on_hand adjusted now row = record row {
  on_hand_quantity = adjusted;
  last_updated_at = some now;
}

abbrev pub mark_processed : CountTask → CountTask
mark_processed t = record t { adjustment_processed = true }

unfoldable pub adjusted_payload : Env → CountTask → ℕ → ℕ → String → Fields
adjusted_payload env t previous adjusted adjustment_id =
    field "eventType" (text "InventoryAdjusted") (
      field "occurredAt" (time env.wall_clock) (
        field "inventoryAdjustment" (dict summary)
          (field "correlationId" (text t.correlation_id) end)))
  where
    summary : Fields
    summary = field "adjustmentId" (text adjustment_id) (
        field "taskId" (text t.task_id) (
          field "warehouseId" (text t.warehouse_id) (
            field "locationId" (text t.location) (
              field "productId" (text t.product_id) (
                field "previousQuantity" (num previous) (
                  field "adjustedQuantity" (num adjusted) (
                    field "difference" (int_value env (sub_ℕ adjusted previous))
                      (field "reason" (text "CYCLE_COUNT_VARIANCE") end))))))))

-- What is written for a task, the row that it counted and the quantity that it found.
unfoldable pub write_adjustment : Env → CountTask → Inventory → ℕ → Stateful Db (Unit {0})
write_adjustment env t row adjusted = do
  adjustment_id ← drawn_id next_adjustment_id
  update_inventory row.inventory_id (set_on_hand adjusted env.wall_clock)
  insert_adjustment (adjustment_row env t row.on_hand_quantity adjusted adjustment_id)
  update_count_task t.task_id mark_processed
  publish env "InventoryAdjusted" "INVENTORY" t.product_id t.correlation_id
      (adjusted_payload env t row.on_hand_quantity adjusted adjustment_id)
  pure tt

-- A completed count with no quantity raises TypeError at the difference.
unfoldable pub adjust_to : Env → CountTask → Inventory → Option ℕ → Stateful Db (Unit {0})
adjust_to env t row none = raise type_error
adjust_to env t row (some adjusted) = write_adjustment env t row adjusted

unfoldable pub adjust : Env → Stateful Db (Unit {0})
adjust env = do
  found ← gets find_discrepancy
  t ← or_raise (failure "No completed cycle count requiring adjustment found") found
  stocked ← gets (counted_stock t)
  row ← or_raise (failure "Inventory record not found") stocked
  adjust_to env t row t.received_quantity

-- `generate_inventory_adjusted`
unfoldable pub generate_inventory_adjusted : Env → Stateful Db (Unit {0})
generate_inventory_adjusted env = transaction (adjust env)
