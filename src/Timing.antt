-- ===== src/Timing.antt =====
-- simulator/core/event_timing.py: how long after its cause an event is scheduled. A time is a
-- number of microseconds; `randint` is `random.randint`.
pub mod Bounds
use daemon_supply_chain.Common.{
  ℕ, ◌+◌, ◌*◌, ◌≤◌, String, Bool, Option, none, some, List, [], ◌∷◌, ltb, leb, ◌==◌, if◌then◌else◌,
  lookup, Result, ok, err, value_error, ◌>>=◌,
}

abbrev pub microseconds_per_minute : ℕ
microseconds_per_minute = 60000000

pub record Window : Type 0 where
  pub min_minutes : ℕ
  pub max_minutes : ℕ

abbrev pub minutes : ℕ → ℕ → Window
minutes lo hi = record { min_minutes = lo; max_minutes = hi }

unfoldable pub event_delay_windows : List (String × Window)
event_delay_windows =
    ("PurchaseOrderCreated", minutes 0 0)
    ∷ ("PurchaseOrderApproved", minutes 120 360)
    ∷ ("SupplierShipmentCreated", minutes 120 1440)
    ∷ ("ASNReceived", minutes 60 300)
    ∷ ("SupplierShipmentDelivered", minutes 60 1440)
    ∷ ("ReceivingTaskCreated", minutes 0 120)
    ∷ ("ReceivingTaskStarted", minutes 0 60)
    ∷ ("GoodsReceived", minutes 0 120)
    ∷ ("StockIncreased", minutes 0 60)
    ∷ ("InventoryPutaway", minutes 0 60)
    ∷ ("OrderCreated", minutes 0 0)
    ∷ ("OrderItemCreated", minutes 0 60)
    ∷ ("InventoryAllocationCreated", minutes 0 120)
    ∷ ("InventoryReserved", minutes 0 120)
    ∷ ("PickingTaskCreated", minutes 0 60)
    ∷ ("ShipmentReady", minutes 0 60)
    ∷ ("CarrierAssigned", minutes 0 60)
    ∷ ("ShipmentPickedUp", minutes 0 120)
    ∷ ("ShipmentInTransit", minutes 120 720)
    ∷ ("ShipmentDelivered", minutes 60 1440)
    ∷ ("InventoryReceived", minutes 0 120)
    ∷ ("InventoryAdjusted", minutes 0 60)
    ∷ ("CycleCountCreated", minutes 0 120)
    ∷ ("CycleCountCompleted", minutes 0 120)
    ∷ ("TaskStarted", minutes 0 60)
    ∷ ("PackingTaskCreated", minutes 0 60)
    ∷ ("PackingTaskStarted", minutes 0 60)
    ∷ ("PackingCompleted", minutes 0 60)
    ∷ ("PickingCompleted", minutes 0 60)
    ∷ ("DriverAssigned", minutes 0 60)
    ∷ ("VehicleAssigned", minutes 0 60)
    ∷ ("ShipmentLoaded", minutes 0 60)
    ∷ ("CheckpointReached", minutes 0 180)
    ∷ ("ShipmentDispatched", minutes 0 120)
    ∷ ("ShipmentArrived", minutes 30 720)
    ∷ []

unfoldable pub window_of : String → Window
window_of event_type = elim (lookup event_type event_delay_windows) [
  | some window ↦ window
  | none ↦ minutes 5 30
]

-- A draw of 0 is raised to `max(1, min_minutes if min_minutes > 0 else 1)`.
unfoldable pub at_least_one : Window → ℕ → ℕ
at_least_one w delay_minutes =
    if leb delay_minutes 0
    then (let low = if ltb 0 w.min_minutes then w.min_minutes else 1 in
        if leb low 1 then 1 else low)
    else delay_minutes

module _ (randint : ℕ → ℕ → ℕ) where
  -- The delay in minutes.
  unfoldable pub delay_in : Window → Result ℕ
  delay_in w =
      if ltb w.max_minutes w.min_minutes
      then err value_error
      else ok (at_least_one w (randint w.min_minutes w.max_minutes))

  unfoldable pub get_event_delay : String → Result ℕ
  get_event_delay event_type = delay_in (window_of event_type)

  unfoldable pub get_future_event_time : String → ℕ → Result ℕ
  get_future_event_time event_type base_time = do
    delay ← get_event_delay event_type
    ok (base_time + delay * microseconds_per_minute)
