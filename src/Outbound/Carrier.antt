-- ===== src/Outbound/Carrier.antt =====
-- simulator/generators/transportation/carrier_assigned.py
use daemon_supply_chain.Common.{
  ℕ, suc, String, ◌==◌, ◌&&◌, Option, none, some, [], ◌∷◌, ◌++◌, filter, failure,
}
use daemon_supply_chain.Common.Stateful.{
  Stateful, pure, gets, change, or_raise, transaction, ◌>>=◌, ◌>>◌,
}
use daemon_supply_chain.Common.Sorting.{sort_by}
use daemon_supply_chain.Values.{text, time, dict, Fields, end, field}
use daemon_supply_chain.Stock.{OutboundShipment, Transportation, Resource, Db, Env}
use daemon_supply_chain.Stock.Queries.{first, publish}
use daemon_supply_chain.Outbound.{
  update_outbound, find_active, set_resources, is_null_or, number_le,
}

unfoldable pub find_ready : Option String → Db → Option OutboundShipment
find_ready shipment_id db = first (
    sort_by (λ a b. number_le a.shipment_date b.shipment_date)
      (filter (λ x. x.shipment_status == "READY" && is_null_or shipment_id x.shipment_id)
        db.outbound_shipments))

unfoldable pub carrier_row : Env → String → Resource → Resource → Resource → ℕ → Transportation
carrier_row env shipment_id vehicle trailer driver id = record {
  id = id;
  shipment_id = shipment_id;
  vehicle_id = some vehicle.resource_id;
  trailer_id = some trailer.resource_id;
  driver_id = some driver.resource_id;
  assigned_at = some env.now;
  picked_up_at = none;
  status = "ASSIGNED";
  created_at = env.wall_clock;
  updated_at = env.wall_clock;
}

-- `INSERT INTO outbound_shipment_transportation`, whose key is a sequence.
abbrev pub insert_transport : (ℕ → Transportation) → Stateful Db (Unit {0})
insert_transport row = change (λ s. record s {
  transportations = s.transportations ++ row (suc s.transportation_sequence) ∷ [];
  transportation_sequence = suc s.transportation_sequence;
})

abbrev pub mark_assigned : OutboundShipment → OutboundShipment
mark_assigned x = record x { shipment_status = "ASSIGNED"; carrier_service = some "STANDARD" }

unfoldable pub carrier_payload : Env → OutboundShipment → Resource → Resource → Resource → Fields
carrier_payload env x vehicle trailer driver = field "event_type" (text "CarrierAssigned") (
    field "occurred_at" (time env.now)
      (field "transportation" (dict summary) (field "correlation_id" (text x.correlation_id) end)))
  where
    summary : Fields
    summary = field "shipment_id" (text x.shipment_id) (
        field "vehicle_id" (text vehicle.resource_id) (
          field "trailer_id" (text trailer.resource_id)
            (field "driver_id" (text driver.resource_id) (field "status" (text "ASSIGNED") end))))

-- What is written for a shipment and what carries it.
unfoldable pub write_carrier :
    Env → OutboundShipment → Resource → Resource → Resource → Stateful Db String
write_carrier env x vehicle trailer driver = do
  insert_transport (carrier_row env x.shipment_id vehicle trailer driver)
  update_outbound x.shipment_id mark_assigned
  set_resources "ASSIGNED" (some vehicle.resource_id) (some trailer.resource_id)
      (some driver.resource_id)
  publish env "CarrierAssigned" "SHIPMENT" x.shipment_id x.correlation_id
      (carrier_payload env x vehicle trailer driver)
  pure x.shipment_id

-- What a shipment is given to be carried.
unfoldable pub carry : Env → OutboundShipment → Stateful Db String
carry env x = do
  active_vehicle ← gets (λ s. find_active s.vehicles)
  vehicle ← or_raise (failure "No available vehicle") active_vehicle
  active_trailer ← gets (λ s. find_active s.trailers)
  trailer ← or_raise (failure "No active trailer available") active_trailer
  active_driver ← gets (λ s. find_active s.drivers)
  driver ← or_raise (failure "No available driver") active_driver
  write_carrier env x vehicle trailer driver

unfoldable pub assign_carrier : Env → Option String → Stateful Db String
assign_carrier env shipment_id = do
  found ← gets (find_ready shipment_id)
  x ← or_raise (failure "No READY shipment found") found
  carry env x

-- `generate_carrier_assigned`, which returns the id of the shipment.
unfoldable pub generate_carrier_assigned : Env → Option String → Stateful Db String
generate_carrier_assigned env shipment_id = transaction (assign_carrier env shipment_id)
