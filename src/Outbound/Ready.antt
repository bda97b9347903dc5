-- ===== src/Outbound/Ready.antt =====
-- simulator/generators/transportation/shipment_ready.py
use daemon_supply_chain.Common.{
  ℕ, ◌+◌, ◌*◌, String, ◌==◌, not, ◌&&◌, if◌then◌else◌, Option, none, some, [], ◌∷◌, ◌++◌, any, find,
  failure, ok, err, Bool,
}
use daemon_supply_chain.Common.Stateful.{
  Stateful, pure, gets, or_raise, raise_if, transaction, ◌>>=◌, ◌>>◌,
}
use daemon_supply_chain.Values.{text, time, dict, Fields, end, field}
use daemon_supply_chain.Outbox.{unique_violation}
use daemon_supply_chain.Stock.{Package, Fulfillment, OutboundShipment, Db, Env}
use daemon_supply_chain.Stock.Queries.{set_order_status, randint, publish}
use daemon_supply_chain.Outbound.{
  has_outbound_id, update_fulfillment, generate_id, is_null_or, microseconds_per_day,
}

-- The duplicate check, and the condition on the LEFT JOIN of the first query.
abbrev pub is_shipped : String → Db → Bool
is_shipped package_id db = any (λ x. x.package_id == package_id) db.outbound_shipments

unfoldable pub find_packed : Option String → Db → Option Package
find_packed package_id db =
    find
      (λ p.
        p.package_status == "PACKED"
        && not (is_shipped p.package_id db)
        && is_null_or package_id p.package_id)
      db.packages

unfoldable pub insert_fulfillment : Fulfillment → Stateful Db (Unit {0})
insert_fulfillment row s =
    if any (λ old. old.fulfillment_id == row.fulfillment_id) s.fulfillments
    then (err unique_violation, s)
    else (ok tt, record s { fulfillments = s.fulfillments ++ row ∷ [] })

unfoldable pub new_fulfillment : Package → String → Fulfillment
new_fulfillment p fulfillment_id = record {
  fulfillment_id = fulfillment_id;
  order_id = p.order_id;
  warehouse_id = p.warehouse_id;
  status = "READY";
  completed_at = none;
  correlation_id = p.correlation_id;
}

-- The fulfillment of the order, or a new one; its id.
unfoldable pub fulfillment_of : Env → Package → Option Fulfillment → Stateful Db String
fulfillment_of env p (some old) = pure old.fulfillment_id
fulfillment_of env p none = do
  fulfillment_id ← generate_id env "FUL"
  insert_fulfillment (new_fulfillment p fulfillment_id)
  pure fulfillment_id

unfoldable pub insert_outbound : OutboundShipment → Stateful Db (Unit {0})
insert_outbound row s =
    if any (has_outbound_id row.shipment_id) s.outbound_shipments
    then (err unique_violation, s)
    else (ok tt, record s { outbound_shipments = s.outbound_shipments ++ row ∷ [] })

unfoldable pub ready_row : Env → Package → String → String → ℕ → OutboundShipment
ready_row env p shipment_id fulfillment_id days = record {
  shipment_id = shipment_id;
  fulfillment_id = fulfillment_id;
  order_id = p.order_id;
  package_id = p.package_id;
  shipment_status = "READY";
  shipment_date = env.now;
  expected_delivery = env.now + days * microseconds_per_day;
  actual_delivery = none;
  created_at = env.wall_clock;
  updated_at = env.wall_clock;
  correlation_id = p.correlation_id;
  carrier_service = none;
}

unfoldable pub ready_payload : Package → OutboundShipment → Fields
ready_payload p x = field "event_type" (text "ShipmentReady") (
    field "occurred_at" (time x.shipment_date)
      (field "shipment" (dict summary) (field "correlation_id" (text p.correlation_id) end)))
  where
    summary : Fields
    summary = field "shipment_id" (text x.shipment_id) (
        field "package_id" (text p.package_id) (
          field "order_id" (text p.order_id) (
            field "fulfillment_id" (text x.fulfillment_id) (
              field "warehouse_id" (text p.warehouse_id) (
                field "status" (text "READY")
                  (field "expected_delivery" (time x.expected_delivery) end))))))

-- What is written for a shipment.
unfoldable pub write_ready : Env → Package → OutboundShipment → Stateful Db String
write_ready env p x = do
  insert_outbound x
  update_fulfillment x.fulfillment_id (λ f. record f { status = "READY" })
  set_order_status p.order_id "SHIPPED"
  publish env "ShipmentReady" "SHIPMENT" x.shipment_id p.correlation_id (ready_payload p x)
  pure x.shipment_id

unfoldable pub ship_package : Env → Package → Stateful Db String
ship_package env p = do
  old ← gets (λ s. find (λ f. f.order_id == p.order_id) s.fulfillments)
  fulfillment_id ← fulfillment_of env p old
  existing ← gets (is_shipped p.package_id)
  raise_if existing (failure "Shipment already exists")
  shipment_id ← generate_id env "SHP"
  days ← randint env 1 5
  write_ready env p (ready_row env p shipment_id fulfillment_id days)

unfoldable pub make_ready : Env → Option String → Stateful Db String
make_ready env package_id = do
  found ← gets (find_packed package_id)
  p ← or_raise (failure "No PACKED package found") found
  ship_package env p

-- `generate_shipment_ready`, which returns the id of the shipment.
unfoldable pub generate_shipment_ready : Env → Option String → Stateful Db String
generate_shipment_ready env package_id = transaction (make_ready env package_id)
