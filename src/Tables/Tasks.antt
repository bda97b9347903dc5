-- ===== src/Tables/Tasks.antt =====
-- The tables of the work in a warehouse.
use daemon_supply_chain.Common.{ℕ, String, Bool, Option}
use daemon_supply_chain.Common.Integers.{ℤ}

-- A row of warehouse_tasks of the type PICKING.
pub record Task : Type 0 where
  pub task_id : String
  pub task_type : String
  pub warehouse_id : String
  pub product_id : String
  pub location : Option String
  pub quantity : ℕ
  pub priority : String
  pub status : String
  pub assigned_worker_id : Option String
  pub estimated_minutes : ℕ
  pub actual_minutes : Option ℕ
  pub created_at : ℕ
  pub completed_at : Option ℕ
  pub task_started_at : Option ℕ
  pub task_completed_at : Option ℕ
  pub started_by : Option String
  pub completed_by : Option String
  pub correlation_id : String
  pub expected_quantity : ℕ
  pub order_id : String
  pub allocation_id : String

-- A row of warehouse_tasks of the type PACKING. The table is kept as four lists, by the type.
pub record PackingTask : Type 0 where
  pub task_id : String
  pub warehouse_id : String
  pub order_id : String
  pub picking_task_id : String
  pub quantity : ℕ
  pub priority : String
  pub status : String
  pub expected_quantity : ℕ
  pub estimated_minutes : ℕ
  pub created_at : ℕ
  pub correlation_id : String
  pub assigned_worker_id : Option String
  pub actual_minutes : Option ℕ
  pub task_started_at : Option ℕ
  pub task_completed_at : Option ℕ
  pub completed_at : Option ℕ
  pub started_by : Option String
  pub completed_by : Option String

-- A row of warehouse_tasks of the type RECEIVING.
pub record ReceivingTask : Type 0 where
  pub task_id : String
  pub warehouse_id : String
  pub shipment_id : String
  pub location : Option String
  pub quantity : ℕ
  pub expected_quantity : ℕ
  pub received_quantity : Option ℕ
  pub priority : String
  pub status : String
  pub assigned_worker_id : Option String
  pub estimated_minutes : ℕ
  pub actual_minutes : Option ℕ
  pub created_at : Option ℕ
  pub assigned_at : Option ℕ
  pub task_started_at : Option ℕ
  pub task_completed_at : Option ℕ
  pub completed_at : Option ℕ
  pub created_by : String
  pub started_by : Option String
  pub completed_by : Option String
  pub dock_location : String
  pub correlation_id : String

-- A row of warehouse_tasks of the type CYCLE_COUNT.
pub record CountTask : Type 0 where
  pub task_id : String
  pub warehouse_id : String
  pub product_id : String
  pub location : String
  pub quantity : ℕ
  pub expected_quantity : ℕ
  pub received_quantity : Option ℕ
  pub discrepancy_quantity : ℤ
  pub adjustment_processed : Bool
  pub priority : String
  pub status : String
  pub assigned_worker_id : Option String
  pub estimated_minutes : ℕ
  pub actual_minutes : Option ℕ
  pub created_at : ℕ
  pub assigned_at : ℕ
  pub task_started_at : Option ℕ
  pub task_completed_at : Option ℕ
  pub completed_at : Option ℕ
  pub created_by : String
  pub started_by : Option String
  pub completed_by : Option String
  pub correlation_id : String

-- A row of worker_productivity; the scores are in hundredths.
pub record Productivity : Type 0 where
  pub worker_id : Option String
  pub task_id : String
  pub task_type : String
  pub warehouse_id : String
  pub units_processed : ℕ
  pub working_minutes : ℕ
  pub accuracy_score : ℕ
  pub productivity_score : ℕ
  pub correlation_id : String

pub record Worker : Type 0 where
  pub worker_id : String
  pub warehouse_id : String
  pub current_status : String
  pub employment_status : String
  pub role : String
