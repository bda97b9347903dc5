-- ===== src/Outbound.antt =====
-- simulator/generators/transportation: the statements that the generators of outbound shipments share.
-- What `LIMIT 1` gives with no ORDER BY is the first in the table.
pub mod Ready
pub mod Carrier
pub mod PickedUp
pub mod InTransit
pub mod Delivered
pub mod Lockstep
pub mod Advance
pub mod AdvanceEarly
pub mod AdvanceLate
pub mod Pickups
pub mod AdvanceTransit
pub mod AdvanceDelivered
pub mod Steps
pub mod Exclusive
pub mod Loads
pub mod Conflict
use Prim.Native.String.{◌++◌ as text_append}
use daemon_supply_chain.Common.{
  ℕ, suc, ◌*◌, String, ◌==◌, if◌then◌else◌, Bool, true, Option, none, some, List, [], ◌∷◌, ◌++◌,
  map, any, find, filter, ok, err,
}
use daemon_supply_chain.Common.Stateful.{Stateful, pure, change, ◌>>=◌}
use daemon_supply_chain.Common.Integers.{ℤ}
use daemon_supply_chain.Common.Sorting.{sort_by}
use daemon_supply_chain.Values.{Value}
use daemon_supply_chain.Timing.{microseconds_per_minute}
use daemon_supply_chain.Outbox.{unique_violation}
use daemon_supply_chain.Stock.{
  OutboundShipment, Fulfillment, Transportation, OutboundTracking, Resource, Db, Env,
}
use daemon_supply_chain.Stock.Queries.{first, time_le, fresh_text}

abbrev pub has_outbound_id : String → OutboundShipment → Bool
has_outbound_id id row = row.shipment_id == id

abbrev pub is_transport_of : String → Transportation → Bool
is_transport_of id row = row.shipment_id == id

-- `UPDATE outbound_shipments … WHERE shipment_id = %s`
abbrev pub update_outbound : String → (OutboundShipment → OutboundShipment) → Stateful Db (Unit {0})
update_outbound id f = change (λ s. record s {
  outbound_shipments =
      map (λ row. if has_outbound_id id row then f row else row) s.outbound_shipments;
})

-- `UPDATE outbound_shipment_transportation … WHERE shipment_id = %s`
abbrev pub update_transport : String → (Transportation → Transportation) → Stateful Db (Unit {0})
update_transport id f = change (λ s. record s {
  transportations = map (λ row. if is_transport_of id row then f row else row) s.transportations;
})

abbrev pub update_fulfillment : String → (Fulfillment → Fulfillment) → Stateful Db (Unit {0})
update_fulfillment id f = change (λ s. record s {
  fulfillments = map (λ row. if row.fulfillment_id == id then f row else row) s.fulfillments;
})

unfoldable pub insert_tracking : OutboundTracking → Stateful Db (Unit {0})
insert_tracking row s =
    if any (λ old. old.tracking_id == row.tracking_id) s.outbound_trackings
    then (err unique_violation, s)
    else (ok tt, record s { outbound_trackings = s.outbound_trackings ++ row ∷ [] })

abbrev pub set_status : String → String → List Resource → List Resource
set_status id status =
    map (λ row. if row.resource_id == id then record row { status = status } else row)

-- `WHERE status = 'ACTIVE' ORDER BY created_at LIMIT 1`
unfoldable pub find_active : List Resource → Option Resource
find_active rows =
    first
      (sort_by (λ a b. time_le a.created_at b.created_at) (filter (λ r. r.status == "ACTIVE") rows))

-- The UPDATEs of a vehicle, a trailer and a driver; no row has a null id.
unfoldable pub set_resources :
    String → Option String → Option String → Option String → Stateful Db (Unit {0})
set_resources status vehicle trailer driver = change (λ s. record s {
  vehicles = elim vehicle [ none ↦ s.vehicles | some id ↦ set_status id status s.vehicles ];
  trailers = elim trailer [ none ↦ s.trailers | some id ↦ set_status id status s.trailers ];
  drivers = elim driver [ none ↦ s.drivers | some id ↦ set_status id status s.drivers ];
})

-- `_generate_id`, and with the prefix TRK `_generate_tracking_id`.
abbrev pub generate_id : Env → String → Stateful Db String
generate_id env prefix = do
  suffix ← fresh_text env
  pure (text_append prefix (text_append "-" suffix))

-- `round(random.uniform(lo, hi), 6)`
abbrev pub uniform : Env → ℤ → ℤ → Stateful Db Value
uniform env lo hi s = (ok (env.uniform s.drawn lo hi), record s { drawn = suc s.drawn })

-- `%s IS NULL OR id = %s`
abbrev pub is_null_or : Option String → String → Bool
is_null_or none id = true
is_null_or (some asked) id = id == asked

abbrev pub microseconds_per_day : ℕ
microseconds_per_day = 24 * (60 * microseconds_per_minute)

abbrev pub number_le : ℕ → ℕ → Bool
number_le a b = time_le (some a) (some b)
