-- ===== src/Outbound/Delivered.antt =====
-- simulator/generators/transportation/shipment_delivered.py
use daemon_supply_chain.Common.{
  ℕ, ◌+◌, ◌*◌, String, ◌==◌, ◌&&◌, if◌then◌else◌, Option, none, some, map, find, filter, failure,
}
use daemon_supply_chain.Common.Stateful.{
  Stateful, pure, gets, change, or_raise, transaction, ◌>>=◌, ◌>>◌,
}
use daemon_supply_chain.Common.Sorting.{sort_by}
use daemon_supply_chain.Values.{text, time, dict, Fields, end, field}
use daemon_supply_chain.Timing.{microseconds_per_minute}
use daemon_supply_chain.Stock.{OutboundShipment, Transportation, Db, Env}
use daemon_supply_chain.Stock.Queries.{
  given, first, text_or_null, set_order_status, randint, publish,
}
use daemon_supply_chain.Outbound.{
  has_outbound_id, is_transport_of, update_outbound, update_transport, update_fulfillment,
  set_resources, number_le,
}

unfoldable pub find_outbound_in_transit : Option String → Db → Option OutboundShipment
find_outbound_in_transit (some id) db =
    find (λ x. has_outbound_id id x && x.shipment_status == "IN_TRANSIT") db.outbound_shipments
find_outbound_in_transit none db = first (
    sort_by (λ a b. number_le a.shipment_date b.shipment_date)
      (filter (λ x. x.shipment_status == "IN_TRANSIT") db.outbound_shipments))

-- `pickup_time`
abbrev pub pickup_time : Option ℕ → ℕ → ℕ
pickup_time none now = now
pickup_time (some t) now = t

abbrev pub mark_outbound_delivered : ℕ → OutboundShipment → OutboundShipment
mark_outbound_delivered t x = record x {
  shipment_status = "DELIVERED";
  actual_delivery = some t;
  updated_at = t;
}

abbrev pub mark_transport_delivered : ℕ → Transportation → Transportation
mark_transport_delivered t y = record y { status = "DELIVERED"; updated_at = t }

unfoldable pub close_trackings : String → ℕ → Stateful Db (Unit {0})
close_trackings id t = change (λ s. record s {
  outbound_trackings =
      map
        (λ row.
          if row.shipment_id == id
          then record row { status = "DELIVERED"; actual_arrival = some t }
          else row)
        s.outbound_trackings;
})

unfoldable pub outbound_delivered_payload : OutboundShipment → Transportation → ℕ → Fields
outbound_delivered_payload x y t = field "event_type" (text "ShipmentDelivered") (
    field "occurred_at" (time t)
      (field "shipment" (dict summary) (field "correlation_id" (text x.correlation_id) end)))
  where
    summary : Fields
    summary = field "shipment_id" (text x.shipment_id) (
        field "package_id" (text x.package_id) (
          field "order_id" (text x.order_id) (
            field "fulfillment_id" (text x.fulfillment_id) (
              field "vehicle_id" (text_or_null y.vehicle_id) (
                field "trailer_id" (text_or_null y.trailer_id) (
                  field "driver_id" (text_or_null y.driver_id)
                    (field "status" (text "DELIVERED") end)))))))

-- What is written for a delivery.
unfoldable pub write_outbound_delivered :
    Env → OutboundShipment → Transportation → ℕ → Stateful Db String
write_outbound_delivered env x y t = do
  update_outbound x.shipment_id (mark_outbound_delivered t)
  update_transport x.shipment_id (mark_transport_delivered t)
  close_trackings x.shipment_id t
  set_resources "ACTIVE" y.vehicle_id y.trailer_id y.driver_id
  update_fulfillment x.fulfillment_id
      (λ f. record f { status = "COMPLETED"; completed_at = some t })
  set_order_status x.order_id "DELIVERED"
  publish env "ShipmentDelivered" "SHIPMENT" x.shipment_id x.correlation_id
      (outbound_delivered_payload x y t)
  pure x.shipment_id

-- The transportation of a shipment, and what is written.
unfoldable pub deliver_with : Env → OutboundShipment → Stateful Db String
deliver_with env x = do
  row ← gets (λ s. find (is_transport_of x.shipment_id) s.transportations)
  y ← or_raise (failure "Transportation record not found") row
  hours ← randint env 6 72
  write_outbound_delivered env x y
      (pickup_time y.picked_up_at env.now + hours * (60 * microseconds_per_minute))

unfoldable pub deliver_outbound : Env → Option String → Stateful Db String
deliver_outbound env shipment_id = do
  found ← gets (find_outbound_in_transit shipment_id)
  x ← or_raise (failure "No IN_TRANSIT shipment found") found
  deliver_with env x

-- `generate_shipment_delivered`, which returns the id of the shipment.
unfoldable pub generate_shipment_delivered : Env → Option String → Stateful Db String
generate_shipment_delivered env shipment_id = transaction (deliver_outbound env (given shipment_id))
