-- ===== src/Stock/Arrived.antt =====
-- simulator/generators/transportation/shipment_arrived.py and
-- simulator/generators/warehouse/receiving_task_created.py, the creation of a receiving task for a
-- shipment that has arrived. The name of the latter's function is kept by Stock/Receiving.antt.
use daemon_supply_chain.Common.{
  ℕ, ◌-◌, String, ◌==◌, leb, Bool, ◌&&◌, if◌then◌else◌, Option, none, some, List, [], ◌∷◌, ◌++◌,
  length, filter, map, any, find, failure,
}
use daemon_supply_chain.Common.Stateful.{
  Stateful, pure, gets, change, or_raise, raise_if, transaction, ◌>>=◌, ◌>>◌,
}
use daemon_supply_chain.Values.{num, text, time, dict, Fields, end, field}
use daemon_supply_chain.Ids.{next_task_id}
use daemon_supply_chain.Stock.{Tracking, Shipment, ReceivingTask, Worker, Db, Env}
use daemon_supply_chain.Stock.Queries.{
  first, one_of, text_or_null, has_shipment_id, update_shipment, update_worker,
  insert_receiving_task, fresh_text, drawn_id, randint, publish,
}
use daemon_supply_chain.Stock.GoodsReceived.{shipped}
use daemon_supply_chain.Stock.Counts.{count_workers}

-- The shipments in transit with their rows of the tracking, of which `LIMIT 1` takes the first.
abbrev pub in_transit : List Shipment → List Tracking → List (Shipment × Tracking)
in_transit [] trackings = []
in_transit (x ∷ xs) trackings =
    map (λ y. (x, y))
      (filter (λ y. y.shipment_id == x.shipment_id && x.shipment_status == "IN_TRANSIT") trackings)
    ++ in_transit xs trackings

unfoldable pub find_in_transit : Db → Option (Shipment × Tracking)
find_in_transit db = first (in_transit db.shipments db.trackings)

abbrev pub mark_arrived : ℕ → Shipment → Shipment
mark_arrived now x = record x {
  shipment_status = "ARRIVED";
  actual_delivery = some now;
  updated_at = some now;
}

-- `UPDATE shipment_tracking SET status = 'ARRIVED', …`
unfoldable pub track_arrival : String → ℕ → Stateful Db (Unit {0})
track_arrival tracking_id now = change (λ s. record s {
  trackings =
      map
        (λ y.
          if y.tracking_id == tracking_id
          then record y { status = "ARRIVED"; actual_arrival = some now }
          else y)
        s.trackings;
})

unfoldable pub arrived_payload : Shipment → Tracking → ℕ → Fields
arrived_payload x y now = field "event_type" (text "ShipmentArrived") (
    field "shipment_id" (text x.shipment_id) (
      field "po_id" (text x.po_id) (
        field "supplier_id" (text x.supplier_id) (
          field "warehouse_id" (text x.warehouse_id) (
            field "tracking_id" (text y.tracking_id) (
              field "vehicle_id" (text_or_null y.vehicle_id) (
                field "driver_id" (text_or_null y.driver_id) (
                  field "quantity" (num x.total_quantity) (
                    field "arrival_time" (time now)
                      (field "correlation_id" (text x.correlation_id) end))))))))))

unfoldable pub arrive : Env → Stateful Db (Unit {0})
arrive env = do
  found ← gets find_in_transit
  row ← or_raise (failure "No IN_TRANSIT shipment found") found
  update_shipment row.0.shipment_id (mark_arrived env.wall_clock)
  track_arrival row.1.tracking_id env.wall_clock
  publish env "ShipmentArrived" "SHIPMENT" row.0.shipment_id row.0.correlation_id
      (arrived_payload row.0 row.1 env.wall_clock)
  pure tt

-- `generate_shipment_arrived`
unfoldable pub generate_shipment_arrived : Env → Stateful Db (Unit {0})
generate_shipment_arrived env = transaction (arrive env)

abbrev pub find_arrived : String → Db → Option Shipment
find_arrived shipment_id db =
    find (λ x. has_shipment_id shipment_id x && x.shipment_status == "ARRIVED") db.shipments

-- The duplicate check.
abbrev pub has_receiving_task : String → Db → Bool
has_receiving_task shipment_id db = any (λ t. t.shipment_id == shipment_id) db.receiving_tasks

-- `COALESCE(SUM(shipped_quantity), 0)`
abbrev pub total_shipped : String → Db → ℕ
total_shipped shipment_id db =
    shipped (filter (λ i. i.shipment_id == shipment_id) db.shipment_items)

-- The correlation of the shipment, or else a fresh one.
abbrev pub correlation_or_fresh : Env → String → Stateful Db String
correlation_or_fresh env correlation_id =
    if correlation_id == "" then fresh_text env else pure correlation_id

unfoldable pub arrived_row : Env → Shipment → ℕ → Worker → String → String → ReceivingTask
arrived_row env x quantity worker task_id correlation_id = record {
  task_id = task_id;
  warehouse_id = x.warehouse_id;
  shipment_id = x.shipment_id;
  location = none;
  quantity = quantity;
  expected_quantity = quantity;
  received_quantity = none;
  priority = "HIGH";
  status = "CREATED";
  assigned_worker_id = some worker.worker_id;
  estimated_minutes = 30;
  actual_minutes = none;
  created_at = some env.wall_clock;
  assigned_at = some env.wall_clock;
  task_started_at = none;
  task_completed_at = none;
  completed_at = none;
  created_by = "WMS";
  started_by = none;
  completed_by = none;
  dock_location = "DOCK-001";
  correlation_id = correlation_id;
}

unfoldable pub arrived_task_payload : Env → ReceivingTask → String → Fields
arrived_task_payload env t worker_id = field "eventType" (text "ReceivingTaskCreated") (
    field "occurredAt" (time env.wall_clock)
      (field "receivingTask" (dict summary) (field "correlationId" (text t.correlation_id) end)))
  where
    summary : Fields
    summary = field "taskId" (text t.task_id) (
        field "shipmentId" (text t.shipment_id) (
          field "warehouseId" (text t.warehouse_id) (
            field "workerId" (text worker_id) (
              field "dockLocation" (text t.dock_location) (
                field "expectedQuantity" (num t.expected_quantity)
                  (field "status" (text "CREATED") end))))))

-- The task, its worker and the event.
unfoldable pub write_arrived : Env → ReceivingTask → String → Stateful Db String
write_arrived env t worker_id = do
  insert_receiving_task t
  update_worker worker_id (λ w. record w { current_status = "BUSY" })
  publish env "ReceivingTaskCreated" "WAREHOUSE_TASK" t.task_id t.correlation_id
      (arrived_task_payload env t worker_id)
  pure t.task_id

-- The choice of a worker for a shipment, and what is written for it.
unfoldable pub assign_receiving : Env → Shipment → ℕ → Stateful Db String
assign_receiving env x quantity = do
  workers ← gets (count_workers x.warehouse_id)
  n ← randint env 0 (length workers - 1)
  worker ← or_raise (failure "No receiving worker available") (one_of n workers)
  task_id ← drawn_id next_task_id
  correlation_id ← correlation_or_fresh env x.correlation_id
  write_arrived env (arrived_row env x quantity worker task_id correlation_id) worker.worker_id

unfoldable pub create_for_arrived : Env → String → Stateful Db String
create_for_arrived env shipment_id = do
  found ← gets (find_arrived shipment_id)
  x ← or_raise (failure "ARRIVED shipment not found") found
  existing ← gets (has_receiving_task shipment_id)
  raise_if existing (failure "Receiving task already exists")
  quantity ← gets (total_shipped shipment_id)
  raise_if (leb quantity 0) (failure "Shipment contains no items")
  assign_receiving env x quantity

-- `generate_receiving_task_created`, of the id of a shipment.
unfoldable pub generate_receiving_task_created_for : Env → String → Stateful Db String
generate_receiving_task_created_for env shipment_id =
    transaction (create_for_arrived env shipment_id)
