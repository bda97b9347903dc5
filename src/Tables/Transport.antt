-- ===== src/Tables/Transport.antt =====
-- The tables of shipments to customers, whose names begin with outbound_, and what carries them. The
-- columns created_at are filled by PostgreSQL.
use daemon_supply_chain.Common.{ℕ, String, Option}
use daemon_supply_chain.Values.{Value}

pub record OutboundShipment : Type 0 where
  pub shipment_id : String
  pub fulfillment_id : String
  pub order_id : String
  pub package_id : String
  pub shipment_status : String
  pub shipment_date : ℕ
  pub expected_delivery : ℕ
  pub actual_delivery : Option ℕ
  pub created_at : ℕ
  pub updated_at : ℕ
  pub correlation_id : String
  pub carrier_service : Option String

pub record Fulfillment : Type 0 where
  pub fulfillment_id : String
  pub order_id : String
  pub warehouse_id : String
  pub status : String
  pub completed_at : Option ℕ
  pub correlation_id : String

pub record Transportation : Type 0 where
  pub id : ℕ
  pub shipment_id : String
  pub vehicle_id : Option String
  pub trailer_id : Option String
  pub driver_id : Option String
  pub assigned_at : Option ℕ
  pub picked_up_at : Option ℕ
  pub status : String
  pub created_at : ℕ
  pub updated_at : ℕ

pub record OutboundTracking : Type 0 where
  pub tracking_id : String
  pub shipment_id : String
  pub vehicle_id : Option String
  pub trailer_id : Option String
  pub driver_id : Option String
  pub status : String
  pub latitude : Value
  pub longitude : Value
  pub departure_time : Option ℕ
  pub estimated_arrival : Option ℕ
  pub actual_arrival : Option ℕ
  pub created_at : ℕ
  pub correlation_id : String

-- A row of vehicles, of trailers or of drivers, with the id of that table.
pub record Resource : Type 0 where
  pub resource_id : String
  pub status : String
  pub created_at : Option ℕ
