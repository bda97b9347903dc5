-- ===== src/Outbound/InTransit.antt =====
-- simulator/generators/transportation/shipment_in_transit.py
use daemon_supply_chain.Common.{
  ℕ, ◌+◌, ◌*◌, String, ◌==◌, nat_eq, leb, not, ◌&&◌, ◌||◌, if◌then◌else◌, Bool, false, Option, none,
  some, List, [], ◌∷◌, ◌++◌, map, find, filter, failure,
}
use daemon_supply_chain.Common.Integers.{pos}
use daemon_supply_chain.Common.Stateful.{
  Stateful, pure, gets, change, or_raise, raise_if, transaction, ◌>>=◌, ◌>>◌,
}
use daemon_supply_chain.Common.Sorting.{sort_by}
use daemon_supply_chain.Values.{Value, text, time, dict, Fields, end, field}
use daemon_supply_chain.Timing.{microseconds_per_minute}
use daemon_supply_chain.Stock.{
  OutboundShipment, Fulfillment, Transportation, OutboundTracking, Db, Env,
}
use daemon_supply_chain.Stock.Queries.{given, first, time_le, randint, publish}
use daemon_supply_chain.Outbound.{
  has_outbound_id, is_transport_of, set_resources, uniform, microseconds_per_day, number_le,
}

-- A row of the query: a shipment that was picked up, with its fulfillment and its transportation.
pub record Pickup : Type 0 where
  pub shipment : OutboundShipment
  pub fulfillment : Fulfillment
  pub transport : Transportation

-- The conditions of the joins and of WHERE on a shipment and a transportation.
abbrev pub is_pickup : OutboundShipment → Transportation → Bool
is_pickup x y =
    y.shipment_id == x.shipment_id && x.shipment_status == "PICKED_UP" && y.status == "PICKED_UP"

abbrev pub with_fulfillment : OutboundShipment → Transportation → List Fulfillment → List Pickup
with_fulfillment x y fs =
    map (λ f. record { shipment = x; fulfillment = f; transport = y })
      (filter (λ f. f.fulfillment_id == x.fulfillment_id) fs)

abbrev pub with_transport : List Fulfillment → OutboundShipment → List Transportation → List Pickup
with_transport fs x [] = []
with_transport fs x (y ∷ ys) =
    (if is_pickup x y then with_fulfillment x y fs else []) ++ with_transport fs x ys

abbrev pub pickups : List Fulfillment → List Transportation → List OutboundShipment → List Pickup
pickups fs ys [] = []
pickups fs ys (x ∷ xs) = with_transport fs x ys ++ pickups fs ys xs

unfoldable pub find_pickup : Option String → Db → Option Pickup
find_pickup (some id) db = first (
    filter (λ p. has_outbound_id id p.shipment)
      (pickups db.fulfillments db.transportations db.outbound_shipments))
find_pickup none db = first (
    sort_by (λ a b. time_le a.transport.picked_up_at b.transport.picked_up_at)
      (pickups db.fulfillments db.transportations db.outbound_shipments))

-- The rows of a shipment's tracking that are not closed.
abbrev pub is_on_the_way : String → OutboundTracking → Bool
is_on_the_way id row =
    row.shipment_id == id && (row.status == "PICKED_UP" || row.status == "IN_TRANSIT")

unfoldable pub find_tracking : String → Db → Option OutboundTracking
find_tracking id db = first (
    sort_by (λ a b. number_le b.created_at a.created_at)
      (filter (is_on_the_way id) db.outbound_trackings))

-- What carries a pickup.
pub record Carriers : Type 0 where
  pub vehicle_id : String
  pub trailer_id : String
  pub driver_id : String

-- The checks that nothing is missing.
unfoldable pub check_details : Pickup → Stateful Db Carriers
check_details p = do
  raise_if (p.shipment.fulfillment_id == "") (failure "Missing fulfillment_id for shipment")
  raise_if (p.fulfillment.warehouse_id == "") (failure "Missing warehouse_id for fulfillment")
  raise_if (p.shipment.order_id == "") (failure "Missing order_id for shipment")
  raise_if (p.shipment.package_id == "") (failure "Missing package_id for shipment")
  raise_if (nat_eq p.transport.id 0) (failure "No transportation record for shipment")
  vehicle_id ← or_raise (failure "No vehicle assigned to shipment") (given p.transport.vehicle_id)
  trailer_id ← or_raise (failure "No trailer assigned to shipment") (given p.transport.trailer_id)
  driver_id ← or_raise (failure "No driver assigned to shipment") (given p.transport.driver_id)
  raise_if (not (p.transport.status == "PICKED_UP")) (failure "Transportation is not PICKED_UP.")
  pure (record { vehicle_id = vehicle_id; trailer_id = trailer_id; driver_id = driver_id })

-- `tracked is not None and tracked != id`
abbrev pub differs : Option String → String → Bool
differs none id = false
differs (some tracked) id = not (tracked == id)

unfoldable pub check_tracking : OutboundTracking → Carriers → Stateful Db (Unit {0})
check_tracking row c = do
  raise_if (differs row.vehicle_id c.vehicle_id) (failure "Tracking vehicle mismatch.")
  raise_if (differs row.trailer_id c.trailer_id) (failure "Tracking trailer mismatch.")
  raise_if (differs row.driver_id c.driver_id) (failure "Tracking driver mismatch.")

-- The time of the pickup, or else of the departure in the tracking.
abbrev pub picked_up_time : Option ℕ → Option ℕ → Option ℕ
picked_up_time none departure = departure
picked_up_time (some t) departure = some t

abbrev pub mark_in_transit : ℕ → OutboundShipment → OutboundShipment
mark_in_transit t x = record x { shipment_status = "IN_TRANSIT"; updated_at = t }

abbrev pub mark_transport_in_transit : ℕ → Transportation → Transportation
mark_transport_in_transit t y = record y { status = "IN_TRANSIT"; updated_at = t }

-- The UPDATEs of the shipment and of its transportation, which name the status too.
unfoldable pub move_in_transit : Pickup → ℕ → Stateful Db (Unit {0})
move_in_transit p t = change (λ s. record s {
  outbound_shipments =
      map
        (λ x.
          if has_outbound_id p.shipment.shipment_id x && x.shipment_status == "PICKED_UP"
          then mark_in_transit t x
          else x)
        s.outbound_shipments;
  transportations =
      map
        (λ y.
          if nat_eq y.id p.transport.id
            && (is_transport_of p.shipment.shipment_id y && y.status == "PICKED_UP")
          then mark_transport_in_transit t y
          else y)
        s.transportations;
})

abbrev pub is_tracking_of : String → String → OutboundTracking → Bool
is_tracking_of tracking_id id row = row.tracking_id == tracking_id && row.shipment_id == id

unfoldable pub move_tracking : String → String → Value → Value → ℕ → Stateful Db (Unit {0})
move_tracking tracking_id id latitude longitude arrival = change (λ s. record s {
  outbound_trackings =
      map
        (λ row.
          if is_tracking_of tracking_id id row && is_on_the_way id row
          then record row {
            status = "IN_TRANSIT";
            latitude = latitude;
            longitude = longitude;
            estimated_arrival = some arrival;
          }
          else row)
        s.outbound_trackings;
})

-- The check of the tracking after its UPDATE.
unfoldable pub verify_tracking : String → String → Stateful Db (Unit {0})
verify_tracking tracking_id id = do
  found ← gets (λ s. find (is_tracking_of tracking_id id) s.outbound_trackings)
  row ← or_raise (failure "Tracking record disappeared after update.") found
  raise_if (not (row.status == "IN_TRANSIT"))
      (failure "Tracking status was not changed to IN_TRANSIT.")

-- When a transit began and is to end, and where it is.
pub record Transit : Type 0 where
  pub picked_up_at : ℕ
  pub in_transit_at : ℕ
  pub estimated_arrival : ℕ
  pub latitude : Value
  pub longitude : Value

unfoldable pub in_transit_payload : Pickup → Carriers → String → Transit → Fields
in_transit_payload p c tracking_id r = field "eventType" (text "ShipmentInTransit") (
    field "occurredAt" (time r.in_transit_at) (
      field "shipment" (dict shipment) (
        field "transportation" (dict transportation) (
          field "tracking" (dict tracking)
            (field "correlationId" (text p.shipment.correlation_id) end)))))
  where
    shipment : Fields
    shipment = field "shipmentId" (text p.shipment.shipment_id) (
        field "fulfillmentId" (text p.shipment.fulfillment_id) (
          field "orderId" (text p.shipment.order_id) (
            field "packageId" (text p.shipment.package_id) (
              field "warehouseId" (text p.fulfillment.warehouse_id) (
                field "vehicleId" (text c.vehicle_id) (
                  field "trailerId" (text c.trailer_id) (
                    field "driverId" (text c.driver_id) (
                      field "status" (text "IN_TRANSIT") (
                        field "pickedUpAt" (time r.picked_up_at) (
                          field "inTransitAt" (time r.in_transit_at) (
                            field "expectedDelivery" (time p.shipment.expected_delivery) (
                              field "estimatedArrival" (time r.estimated_arrival) (
                                field "trackingId" (text tracking_id) (
                                  field "latitude" r.latitude
                                    (field "longitude" r.longitude end)))))))))))))))

    transportation : Fields
    transportation = field "status" (text "IN_TRANSIT") (
        field "vehicleStatus" (text "IN_TRANSIT") (
          field "trailerStatus" (text "IN_TRANSIT") (field "driverStatus" (text "IN_TRANSIT") end)))

    tracking : Fields
    tracking = field "trackingId" (text tracking_id) (
        field "status" (text "IN_TRANSIT") (
          field "latitude" r.latitude (
            field "longitude" r.longitude (
              field "departureTime" (time r.picked_up_at)
                (field "estimatedArrival" (time r.estimated_arrival) end)))))

-- What is written for a pickup.
unfoldable pub write_in_transit : Env → Pickup → Carriers → String → Transit → Stateful Db String
write_in_transit env p c tracking_id r = do
  move_in_transit p r.in_transit_at
  set_resources "IN_TRANSIT" (some c.vehicle_id) (some c.trailer_id) (some c.driver_id)
  move_tracking tracking_id p.shipment.shipment_id r.latitude r.longitude r.estimated_arrival
  verify_tracking tracking_id p.shipment.shipment_id
  publish env "ShipmentInTransit" "OUTBOUND_SHIPMENT" p.shipment.shipment_id
      p.shipment.correlation_id (in_transit_payload p c tracking_id r)
  pure p.shipment.shipment_id

-- The draws for a pickup at a time.
unfoldable pub draw_transit : Env → ℕ → Stateful Db Transit
draw_transit env picked_up_at = do
  minutes ← randint env 5 30
  let in_transit_at = picked_up_at + minutes * microseconds_per_minute
  raise_if (leb in_transit_at picked_up_at) (failure "Invalid shipment timeline.")
  days ← randint env 1 4
  latitude ← uniform env (pos 8) (pos 20)
  longitude ← uniform env (pos 72) (pos 85)
  pure (record {
    picked_up_at = picked_up_at;
    in_transit_at = in_transit_at;
    estimated_arrival = in_transit_at + days * microseconds_per_day;
    latitude = latitude;
    longitude = longitude;
  })

-- The checks and draws for a pickup, and what is written.
unfoldable pub set_out_with : Env → Pickup → Stateful Db String
set_out_with env p = do
  c ← check_details p
  tracked ← gets (find_tracking p.shipment.shipment_id)
  row ← or_raise (failure "PICKED_UP tracking record not found.") tracked
  check_tracking row c
  picked_up_at ←
      or_raise (failure "No pickup timestamp available.")
        (picked_up_time p.transport.picked_up_at row.departure_time)
  r ← draw_transit env picked_up_at
  write_in_transit env p c row.tracking_id r

unfoldable pub set_out : Env → Option String → Stateful Db String
set_out env shipment_id = do
  found ← gets (find_pickup shipment_id)
  p ← or_raise (failure "No PICKED_UP outbound shipment found") found
  set_out_with env p

-- `generate_shipment_in_transit`, which returns the id of the shipment.
unfoldable pub generate_shipment_in_transit : Env → Option String → Stateful Db String
generate_shipment_in_transit env shipment_id = transaction (set_out env (given shipment_id))
