-- ===== src/Outbound/PickedUp.antt =====
-- simulator/generators/transportation/vehicle_assigned.py and shipment_picked_up.py
use daemon_supply_chain.Common.{
  ℕ, ◌+◌, ◌*◌, String, ◌==◌, ◌&&◌, Option, none, some, find, filter, failure,
}
use daemon_supply_chain.Common.Integers.{pos, negsuc}
use daemon_supply_chain.Common.Stateful.{Stateful, pure, gets, or_raise, transaction, ◌>>=◌, ◌>>◌}
use daemon_supply_chain.Common.Sorting.{sort_by}
use daemon_supply_chain.Values.{Value, text, time, dict, Fields, end, field}
use daemon_supply_chain.Stock.{OutboundShipment, Transportation, OutboundTracking, Db, Env}
use daemon_supply_chain.Stock.Queries.{given, first, text_or_null, randint, publish}
use daemon_supply_chain.Outbound.{
  has_outbound_id, is_transport_of, update_outbound, update_transport, insert_tracking, generate_id,
  uniform, microseconds_per_day, number_le,
}

unfoldable pub pickup_tracking :
    Env → Transportation → String → String → Value → Value → ℕ → OutboundTracking
pickup_tracking env y correlation_id tracking_id latitude longitude days = record {
  tracking_id = tracking_id;
  shipment_id = y.shipment_id;
  vehicle_id = y.vehicle_id;
  trailer_id = y.trailer_id;
  driver_id = y.driver_id;
  status = "PICKED_UP";
  latitude = latitude;
  longitude = longitude;
  departure_time = some env.now;
  estimated_arrival = some (env.now + days * microseconds_per_day);
  actual_arrival = none;
  created_at = env.wall_clock;
  correlation_id = correlation_id;
}

abbrev pub mark_transport_picked_up : ℕ → Transportation → Transportation
mark_transport_picked_up now y = record y {
  status = "PICKED_UP";
  picked_up_at = some now;
  updated_at = now;
}

unfoldable pub find_assigned : Db → Option Transportation
find_assigned db = first (
    sort_by (λ a b. number_le a.created_at b.created_at)
      (filter (λ y. y.status == "ASSIGNED") db.transportations))

unfoldable pub vehicle_payload : Env → Transportation → String → String → Fields
vehicle_payload env y tracking_id correlation_id = field "event_type" (text "VehicleAssigned") (
    field "occurred_at" (time env.now) (
      field "vehicle_assignment" (dict summary) (field "correlation_id" (text correlation_id) end)))
  where
    summary : Fields
    summary = field "shipment_id" (text y.shipment_id) (
        field "vehicle_id" (text_or_null y.vehicle_id) (
          field "trailer_id" (text_or_null y.trailer_id) (
            field "driver_id" (text_or_null y.driver_id)
              (field "tracking_id" (text tracking_id) (field "status" (text "PICKED_UP") end)))))

-- What vehicle_assigned.py writes.
unfoldable pub write_vehicle : Env → Transportation → OutboundTracking → String → Stateful Db String
write_vehicle env y tracking correlation_id = do
  insert_tracking tracking
  update_transport y.shipment_id (mark_transport_picked_up env.now)
  update_outbound y.shipment_id (λ x. record x { shipment_status = "PICKED_UP" })
  publish env "VehicleAssigned" "SHIPMENT" y.shipment_id correlation_id
      (vehicle_payload env y tracking.tracking_id correlation_id)
  pure y.shipment_id

-- The draws for a transportation and its shipment, and what is written.
unfoldable pub confirm_vehicle : Env → Transportation → OutboundShipment → Stateful Db String
confirm_vehicle env y x = do
  tracking_id ← generate_id env "TRK"
  days ← randint env 1 5
  latitude ← uniform env (pos 25) (pos 45)
  longitude ← uniform env (negsuc 119) (negsuc 69)
  write_vehicle env y (pickup_tracking env y x.correlation_id tracking_id latitude longitude days)
      x.correlation_id

-- The shipment of a transportation.
unfoldable pub assign_to : Env → Transportation → Stateful Db String
assign_to env y = do
  row ← gets (λ s. find (has_outbound_id y.shipment_id) s.outbound_shipments)
  x ← or_raise (failure "Shipment not found") row
  confirm_vehicle env y x

unfoldable pub assign_vehicle : Env → Stateful Db String
assign_vehicle env = do
  found ← gets find_assigned
  y ← or_raise (failure "No ASSIGNED transportation found") found
  assign_to env y

-- `generate_vehicle_assigned`, which returns the id of the shipment.
unfoldable pub generate_vehicle_assigned : Env → Stateful Db String
generate_vehicle_assigned env = transaction (assign_vehicle env)

unfoldable pub find_outbound_assigned : Option String → Db → Option OutboundShipment
find_outbound_assigned (some id) db =
    find (λ x. has_outbound_id id x && x.shipment_status == "ASSIGNED") db.outbound_shipments
find_outbound_assigned none db = first (
    sort_by (λ a b. number_le a.created_at b.created_at)
      (filter (λ x. x.shipment_status == "ASSIGNED") db.outbound_shipments))

unfoldable pub picked_up_payload : Env → OutboundShipment → Transportation → String → Fields
picked_up_payload env x y tracking_id = field "event_type" (text "ShipmentPickedUp") (
    field "occurred_at" (time env.now)
      (field "shipment" (dict summary) (field "correlation_id" (text x.correlation_id) end)))
  where
    summary : Fields
    summary = field "shipment_id" (text x.shipment_id) (
        field "order_id" (text x.order_id) (
          field "vehicle_id" (text_or_null y.vehicle_id) (
            field "trailer_id" (text_or_null y.trailer_id) (
              field "driver_id" (text_or_null y.driver_id)
                (field "tracking_id" (text tracking_id) (field "status" (text "PICKED_UP") end))))))

abbrev pub mark_picked_up : ℕ → OutboundShipment → OutboundShipment
mark_picked_up now x = record x { shipment_status = "PICKED_UP"; updated_at = now }

-- What shipment_picked_up.py writes.
unfoldable pub write_picked_up :
    Env → OutboundShipment → Transportation → OutboundTracking → Stateful Db String
write_picked_up env x y tracking = do
  update_transport x.shipment_id (mark_transport_picked_up env.now)
  update_outbound x.shipment_id (mark_picked_up env.now)
  insert_tracking tracking
  publish env "ShipmentPickedUp" "SHIPMENT" x.shipment_id x.correlation_id
      (picked_up_payload env x y tracking.tracking_id)
  pure x.shipment_id

-- The assigned transportation of a shipment.
abbrev pub transport_assigned : String → Db → Option Transportation
transport_assigned id db =
    find (λ y. is_transport_of id y && y.status == "ASSIGNED") db.transportations

-- The draws for a shipment and its transportation, and what is written.
unfoldable pub hand_over : Env → OutboundShipment → Transportation → Stateful Db String
hand_over env x y = do
  days ← randint env 1 5
  tracking_id ← generate_id env "TRK"
  latitude ← uniform env (pos 25) (pos 45)
  longitude ← uniform env (negsuc 119) (negsuc 69)
  write_picked_up env x y
      (pickup_tracking env y x.correlation_id tracking_id latitude longitude days)

unfoldable pub pick_up_with : Env → OutboundShipment → Stateful Db String
pick_up_with env x = do
  row ← gets (transport_assigned x.shipment_id)
  y ← or_raise (failure "Transportation assignment missing") row
  hand_over env x y

unfoldable pub pick_up : Env → Option String → Stateful Db String
pick_up env shipment_id = do
  found ← gets (find_outbound_assigned shipment_id)
  x ← or_raise (failure "No PICKED_UP shipment found") found
  pick_up_with env x

-- `generate_shipment_picked_up`, which returns the id of the shipment.
unfoldable pub generate_shipment_picked_up : Env → Option String → Stateful Db String
generate_shipment_picked_up env shipment_id = transaction (pick_up env (given shipment_id))
