-- ===== src/Tables/Shipping.antt =====
-- The tables of purchase orders, shipments and packages.
use daemon_supply_chain.Common.{ℕ, String, Bool, Option}

pub record PurchaseOrder : Type 0 where
  pub po_id : String
  pub supplier_id : String
  pub warehouse_id : String
  pub order_date : Option ℕ
  pub updated_at : Option ℕ
  pub correlation_id : Option String

pub record Shipment : Type 0 where
  pub shipment_id : String
  pub po_id : String
  pub supplier_id : String
  pub warehouse_id : String
  pub shipment_status : String
  pub shipment_date : Option ℕ
  pub expected_delivery : Option ℕ
  pub created_at : Option ℕ
  pub actual_delivery : Option ℕ
  pub updated_at : Option ℕ
  pub total_quantity : ℕ
  pub receiving_task_created : Bool
  pub correlation_id : String

-- A row of shipment_tracking.
pub record Tracking : Type 0 where
  pub tracking_id : String
  pub shipment_id : String
  pub vehicle_id : Option String
  pub driver_id : Option String
  pub status : String
  pub actual_arrival : Option ℕ

pub record ShipmentItem : Type 0 where
  pub shipment_item_id : ℕ
  pub shipment_id : String
  pub product_id : String
  pub shipped_quantity : ℕ
  pub received_quantity : ℕ

-- `weight_grams` is weight_kg in thousandths.
pub record Package : Type 0 where
  pub package_id : String
  pub order_id : String
  pub warehouse_id : String
  pub package_type : String
  pub total_items : ℕ
  pub total_quantity : ℕ
  pub weight_grams : ℕ
  pub package_status : String
  pub packed_by : String
  pub packed_at : ℕ
  pub correlation_id : String

pub record PackageItem : Type 0 where
  pub package_id : String
  pub product_id : String
  pub quantity : ℕ
