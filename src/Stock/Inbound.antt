-- ===== src/Stock/Inbound.antt =====
-- simulator/generators/purchase_order/asn_received.py and
-- simulator/generators/supplier/supplier_shipment_delivered.py
use daemon_supply_chain.Common.{
  ℕ, ◌+◌, ◌*◌, String, ◌==◌, Bool, ◌&&◌, Option, none, some, List, [], ◌∷◌, ◌++◌, filter, map,
  failure,
}
use daemon_supply_chain.Common.Stateful.{
  Stateful, pure, gets, or_raise, raise_if, transaction, ◌>>=◌, ◌>>◌,
}
use daemon_supply_chain.Common.Sorting.{sort_by}
use daemon_supply_chain.Values.{text, time, dict, Fields, end, field}
use daemon_supply_chain.Timing.{microseconds_per_minute}
use daemon_supply_chain.Stock.{PurchaseOrder, Shipment, Db, Env}
use daemon_supply_chain.Stock.Queries.{
  first, is_empty, time_le, max_time, of_run, update_shipment, randint, publish,
}

-- `of_run` for a column that may be null, which no run matches.
abbrev pub of_run_or_null : Env → Option String → Bool
of_run_or_null env (some correlation_id) = of_run env correlation_id
of_run_or_null env none = elim env.simulation_correlation_id [
  | none ↦ Bool.true
  | some run ↦ Bool.false
]

-- `str(…)` of a text that may be missing.
abbrev pub text_of : Option String → String
text_of none = "None"
text_of (some s) = s

-- The shipments that wait for their ASN, with their purchase orders.
abbrev pub waiting_for_asn : Env → PurchaseOrder → List Shipment → List Shipment
waiting_for_asn env po shipments =
    filter
      (λ x.
        x.po_id == po.po_id
        && x.shipment_status == "CREATED"
        && of_run_or_null env po.correlation_id)
      shipments

abbrev pub join : Env → List PurchaseOrder → List Shipment → List (PurchaseOrder × Shipment)
join env [] shipments = []
join env (po ∷ pos) shipments =
    map (λ x. (po, x)) (waiting_for_asn env po shipments) ++ join env pos shipments

unfoldable pub find_for_asn : Env → Db → Option (PurchaseOrder × Shipment)
find_for_asn env db = first (
    sort_by (λ a b. time_le a.1.created_at b.1.created_at)
      (join env db.purchase_orders db.shipments))

-- `_get_asn_received_time`, behind the number of minutes that it draws.
unfoldable pub get_asn_received_time : ℕ → PurchaseOrder → Shipment → ℕ → ℕ
get_asn_received_time now po x minutes =
    max_time po.updated_at
      (max_time po.order_date (max_time x.shipment_date (max_time x.updated_at now)))
    + minutes * microseconds_per_minute

abbrev pub mark_asn_received : ℕ → Shipment → Shipment
mark_asn_received received_at x = record x {
  shipment_status = "ASN_RECEIVED";
  updated_at = some received_at;
}

unfoldable pub asn_payload : PurchaseOrder → Shipment → ℕ → Fields
asn_payload po x received_at = field "event_type" (text "ASNReceived") (
    field "occurred_at" (time received_at)
      (field "asn" (dict summary) (field "correlation_id" (text (text_of po.correlation_id)) end)))
  where
    summary : Fields
    summary = field "shipment_id" (text x.shipment_id) (
        field "po_id" (text po.po_id) (
          field "supplier_id" (text po.supplier_id) (
            field "warehouse_id" (text po.warehouse_id)
              (field "status" (text "ASN_RECEIVED") end))))

unfoldable pub write_asn : Env → PurchaseOrder → Shipment → ℕ → Stateful Db (Unit {0})
write_asn env po x received_at = do
  update_shipment x.shipment_id (mark_asn_received received_at)
  publish env "ASNReceived" "SHIPMENT" x.shipment_id (text_of po.correlation_id)
      (asn_payload po x received_at)
  pure tt

unfoldable pub receive_asn : Env → Stateful Db (Unit {0})
receive_asn env = do
  found ← gets (find_for_asn env)
  row ← or_raise (failure "No shipment available for ASN") found
  minutes ← randint env 30 360
  write_asn env row.0 row.1 (get_asn_received_time env.now row.0 row.1 minutes)

-- `generate_asn_received`
unfoldable pub generate_asn_received : Env → Stateful Db (Unit {0})
generate_asn_received env = transaction (receive_asn env)

abbrev pub is_under_way : Env → Shipment → Bool
is_under_way env x = x.shipment_status == "ASN_RECEIVED" && of_run env x.correlation_id

unfoldable pub find_under_way : Env → Db → Option Shipment
find_under_way env db = first (
    sort_by (λ a b. time_le a.shipment_date b.shipment_date)
      (filter (is_under_way env) db.shipments))

-- `COUNT(*)` of the items of a shipment is 0.
abbrev pub has_no_items : String → Db → Bool
has_no_items shipment_id db =
    is_empty (filter (λ i. i.shipment_id == shipment_id) db.shipment_items)

abbrev pub minutes_per_hour : ℕ
minutes_per_hour = 60

-- `_get_delivery_time`, behind the number of hours that it draws.
unfoldable pub get_delivery_time : ℕ → Shipment → ℕ → ℕ
get_delivery_time now x hours =
    max_time x.updated_at (max_time x.shipment_date (max_time x.expected_delivery now))
    + hours * (minutes_per_hour * microseconds_per_minute)

abbrev pub mark_delivered : ℕ → Shipment → Shipment
mark_delivered delivered_at x = record x {
  shipment_status = "DELIVERED";
  actual_delivery = some delivered_at;
  updated_at = some delivered_at;
}

unfoldable pub delivered_payload : Shipment → ℕ → Fields
delivered_payload x delivered_at = field "event_type" (text "SupplierShipmentDelivered") (
    field "shipment_id" (text x.shipment_id) (
      field "po_id" (text x.po_id) (
        field "supplier_id" (text x.supplier_id) (
          field "warehouse_id" (text x.warehouse_id) (
            field "status" (text "DELIVERED") (
              field "delivered_at" (time delivered_at) (
                field "occurred_at" (time delivered_at)
                  (field "correlation_id" (text x.correlation_id) end))))))))

unfoldable pub write_delivered : Env → Shipment → ℕ → Stateful Db (Unit {0})
write_delivered env x delivered_at = do
  update_shipment x.shipment_id (mark_delivered delivered_at)
  publish env "SupplierShipmentDelivered" "SHIPMENT" x.shipment_id x.correlation_id
      (delivered_payload x delivered_at)
  pure tt

unfoldable pub deliver : Env → Stateful Db (Unit {0})
deliver env = do
  found ← gets (find_under_way env)
  x ← or_raise (failure "No ARRIVED shipment found") found
  empty ← gets (has_no_items x.shipment_id)
  raise_if empty (failure "Shipment has no items")
  hours ← randint env 1 24
  write_delivered env x (get_delivery_time env.now x hours)

-- `deliver_supplier_shipment`
unfoldable pub deliver_supplier_shipment : Env → Stateful Db (Unit {0})
deliver_supplier_shipment env = transaction (deliver env)
