-- ===== src/Tables/Goods.antt =====
-- The tables of goods and orders.
use daemon_supply_chain.Common.{ℕ, String, Bool, Option}
use daemon_supply_chain.Common.Integers.{ℤ}

pub record Inventory : Type 0 where
  pub inventory_id : ℕ
  pub product_id : String
  pub warehouse_id : String
  pub on_hand_quantity : ℕ
  pub reserved_quantity : ℕ
  pub damaged_quantity : ℕ
  pub inventory_status : String
  pub location_id : Option String
  pub correlation_id : String
  pub last_updated_at : Option ℕ

pub record Order : Type 0 where
  pub order_id : String
  pub warehouse_id : String
  pub correlation_id : String
  pub order_status : String
  pub items_created : Bool
  pub created_at : ℕ

pub record OrderItem : Type 0 where
  pub order_item_id : ℕ
  pub order_id : String
  pub product_id : String
  pub quantity : ℕ

pub record Allocation : Type 0 where
  pub allocation_id : String
  pub order_id : String
  pub warehouse_id : String
  pub product_id : String
  pub allocated_quantity : ℕ
  pub allocation_status : String
  pub allocated_at : ℕ
  pub correlation_id : String
  pub inventory_id : ℕ
  pub location_id : Option String

pub record Reservation : Type 0 where
  pub reservation_id : String
  pub order_id : String
  pub product_id : String
  pub warehouse_id : String
  pub quantity : ℕ
  pub reservation_status : String
  pub reserved_at : ℕ
  pub correlation_id : String

-- A row of inventory_transactions.
pub record Transaction : Type 0 where
  pub inventory_id : ℕ
  pub product_id : String
  pub warehouse_id : String
  pub transaction_type : String
  pub quantity : ℕ
  pub reference_type : String
  pub reference_id : String
  pub task_id : Option String
  pub shipment_id : Option String
  pub correlation_id : String

-- A row of inventory_adjustments.
pub record Adjustment : Type 0 where
  pub adjustment_id : String
  pub warehouse_id : String
  pub product_id : String
  pub location_id : String
  pub task_id : String
  pub previous_quantity : ℕ
  pub adjusted_quantity : ℕ
  pub adjustment_difference : ℤ
  pub adjustment_reason : String
  pub adjusted_by : Option String
  pub correlation_id : String
  pub created_at : ℕ

-- A row of warehouse_locations.
pub record Location : Type 0 where
  pub location_id : String
  pub warehouse_id : String
  pub capacity_units : Option ℕ
  pub current_utilization : ℕ
  pub status : String
