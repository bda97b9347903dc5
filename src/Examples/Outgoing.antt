-- ===== src/Examples/Outgoing.antt =====
-- Inputs at which the theorems on shipments to customers apply.
use daemon_supply_chain.Common.{
  inl, ◌≤◌, String, ◌≡◌, refl, none, some, List, [], ◌∷◌, arith, Result, ok, err, failure,
}
use daemon_supply_chain.Stock.{OutboundShipment, Fulfillment, Resource, Db}
use daemon_supply_chain.Outbound.Carrier.{generate_carrier_assigned}
use daemon_supply_chain.Outbound.PickedUp.{generate_vehicle_assigned, generate_shipment_picked_up}
use daemon_supply_chain.Outbound.Lockstep.{IsLockstep, IsForward}
use daemon_supply_chain.Outbound.Steps.{Step, Reaches, Reaches-IsLockstep, Reaches-IsCarried}
use daemon_supply_chain.Outbound.Exclusive.{count_active-le}
use daemon_supply_chain.Outbound.Loads.{IsCarried}
use daemon_supply_chain.Outbound.Conflict.{picked_up_stuck}
use daemon_supply_chain.Outbound.Delivered.{generate_shipment_delivered}
use daemon_supply_chain.Examples.Setup.{noon}
use daemon_supply_chain.Examples.Stocks.{stock_env, stocked}

abbrev ready_shipment : OutboundShipment
ready_shipment = record {
  shipment_id = "SHP-1";
  fulfillment_id = "FUL-1";
  order_id = "ORD-1";
  package_id = "PKG-1";
  shipment_status = "READY";
  shipment_date = noon;
  expected_delivery = noon;
  actual_delivery = none;
  created_at = noon;
  updated_at = noon;
  correlation_id = "corr-1";
  carrier_service = none;
}

abbrev active : String → Resource
active id = record { resource_id = id; status = "ACTIVE"; created_at = some noon }

abbrev at_door : Db
at_door = record stocked {
  outbound_shipments = ready_shipment ∷ [];
  vehicles = active "VEH-1" ∷ [];
  trailers = active "TRL-1" ∷ [];
  drivers = active "DRV-1" ∷ [];
}

abbrev with_carrier : Result String × Db
with_carrier = generate_carrier_assigned stock_env none at_door

abbrev with_vehicle : Result String × Db
with_vehicle = generate_vehicle_assigned stock_env with_carrier.1

at_door-IsLockstep : IsLockstep at_door.outbound_shipments at_door.transportations
at_door-IsLockstep = record { keyed = (refl, tt); one_each = tt; matched = tt }

carried : Reaches at_door with_vehicle.1
carried =
    Reaches.after at_door with_carrier.1 with_vehicle.1
      (Reaches.after at_door at_door with_carrier.1 (Reaches.none_yet at_door)
        (Step.carrier_assigned stock_env none at_door))
      (Step.vehicle_assigned stock_env with_carrier.1)

Reaches-IsLockstep_example :
    IsLockstep with_vehicle.1.outbound_shipments with_vehicle.1.transportations
    × IsForward at_door.outbound_shipments with_vehicle.1.outbound_shipments
Reaches-IsLockstep_example = Reaches-IsLockstep at_door with_vehicle.1 carried at_door-IsLockstep

at_door-IsCarried :
    IsCarried at_door.transportations at_door.vehicles at_door.trailers at_door.drivers
at_door-IsCarried = record {
  by_vehicle = λ id. omega (arith, count_active-le id at_door.vehicles);
  by_trailer = λ id. omega (arith, count_active-le id at_door.trailers);
  by_driver = λ id. omega (arith, count_active-le id at_door.drivers);
}

Reaches-IsCarried_example :
    IsCarried with_vehicle.1.transportations with_vehicle.1.vehicles with_vehicle.1.trailers
      with_vehicle.1.drivers
Reaches-IsCarried_example =
    Reaches-IsCarried at_door with_vehicle.1 carried at_door-IsLockstep at_door-IsCarried

picked_up_stuck_example :
    (generate_shipment_picked_up stock_env (some "SHP-1") with_vehicle.1
      ≡ (err (failure "No PICKED_UP shipment found"), with_vehicle.1))
    × (generate_shipment_delivered stock_env (some "SHP-1") with_vehicle.1
        ≡ (err (failure "No IN_TRANSIT shipment found"), with_vehicle.1))
unfolding generate_carrier_assigned generate_vehicle_assigned
    daemon_supply_chain.Common.Stateful.transaction daemon_supply_chain.Common.Stateful.◌>>=◌
    daemon_supply_chain.Common.Stateful.◌>>◌ daemon_supply_chain.Outbound.Carrier.assign_carrier
    daemon_supply_chain.Outbound.Carrier.carry daemon_supply_chain.Outbound.Carrier.find_ready
    daemon_supply_chain.Outbound.find_active daemon_supply_chain.Outbound.Carrier.write_carrier
    daemon_supply_chain.Outbound.Carrier.carrier_row
    daemon_supply_chain.Outbound.Carrier.carrier_payload daemon_supply_chain.Outbound.set_resources
    daemon_supply_chain.Stock.Queries.publish daemon_supply_chain.Outbox.publish_event
    daemon_supply_chain.Outbox.publish_row daemon_supply_chain.Outbox.earliest
    daemon_supply_chain.Outbox.insert_row daemon_supply_chain.Outbox.published_row
    daemon_supply_chain.Outbox.same_cause daemon_supply_chain.Outbound.PickedUp.assign_vehicle
    daemon_supply_chain.Outbound.PickedUp.assign_to
    daemon_supply_chain.Outbound.PickedUp.confirm_vehicle
    daemon_supply_chain.Outbound.PickedUp.find_assigned
    daemon_supply_chain.Outbound.PickedUp.write_vehicle
    daemon_supply_chain.Outbound.PickedUp.pickup_tracking
    daemon_supply_chain.Outbound.PickedUp.vehicle_payload
    daemon_supply_chain.Outbound.insert_tracking
picked_up_stuck_example =
    picked_up_stuck stock_env stock_env none with_carrier.1 with_vehicle.1 "SHP-1" (inl refl) refl
