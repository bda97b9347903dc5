-- ===== src/Stock.antt =====
-- simulator/generators: the database of the generators and what is around it, over the rows of
-- Tables.antt.
pub mod Queries
pub mod Allocate
pub mod Reserve
pub mod PickingTasks
pub mod PickingCompleted
pub mod StockIncreased
pub mod PackingTasks
pub mod PackingCompleted
pub mod Receiving
pub mod GoodsReceived
pub mod Putaway
pub mod Chosen
pub mod Inbound
pub mod Delivered
pub mod Arrived
pub mod SoundArrived
pub mod Duplicates
pub mod Counts
pub mod TaskStarted
pub mod SoundCounts
pub mod Stuck
pub mod Adjustments
pub mod CountsCompleted
pub mod Adjusted
pub mod SoundPacking
pub mod Packed
pub mod Ledger
pub mod Capacity
pub mod Receipts
pub mod Received
pub mod SoundReceiving
pub mod SoundIncrease
pub mod Places
pub mod SoundPutaway
pub mod Sound
pub mod SoundPicking
pub mod Steps
pub mod Split
pub mod Allocated
pub mod Rounds
pub mod Reserved
pub mod Again
pub use daemon_supply_chain.Tables.Goods.{
  Inventory, Order, OrderItem, Allocation, Reservation, Transaction, Adjustment, Location,
}
pub use daemon_supply_chain.Tables.Tasks.{
  Task, PackingTask, ReceivingTask, CountTask, Productivity, Worker,
}
pub use daemon_supply_chain.Tables.Shipping.{
  PurchaseOrder, Shipment, Tracking, ShipmentItem, Package, PackageItem,
}
pub use daemon_supply_chain.Tables.Transport.{
  OutboundShipment, Fulfillment, Transportation, OutboundTracking, Resource,
}
use daemon_supply_chain.Common.{ℕ, ◌+◌, ◌-◌, String, Bool, Option, none, some, List, [], ◌∷◌, ltb}
use daemon_supply_chain.Common.Integers.{ℤ}
use daemon_supply_chain.Values.{Value, Texts}
use daemon_supply_chain.Outbox.{Table}
use daemon_supply_chain.Ids.{Sequences}

-- The database. `drawn` counts the random texts and numbers that were drawn, `inventory_sequence` is
-- the last value of the sequence of inventory_id, `transportation_sequence` that of the id of
-- outbound_shipment_transportation, and `sequences` has those of core/ids.py.
pub record Db : Type 0 where
  pub inventory : List Inventory
  pub orders : List Order
  pub order_items : List OrderItem
  pub allocations : List Allocation
  pub reservations : List Reservation
  pub transactions : List Transaction
  pub tasks : List Task
  pub packing_tasks : List PackingTask
  pub packages : List Package
  pub package_items : List PackageItem
  pub workers : List Worker
  pub locations : List Location
  pub purchase_orders : List PurchaseOrder
  pub shipments : List Shipment
  pub trackings : List Tracking
  pub shipment_items : List ShipmentItem
  pub receiving_tasks : List ReceivingTask
  pub count_tasks : List CountTask
  pub adjustments : List Adjustment
  pub productivity : List Productivity
  pub fulfillments : List Fulfillment
  pub outbound_shipments : List OutboundShipment
  pub transportations : List Transportation
  pub outbound_trackings : List OutboundTracking
  pub vehicles : List Resource
  pub trailers : List Resource
  pub drivers : List Resource
  pub inventory_sequence : ℕ
  pub transportation_sequence : ℕ
  pub sequences : Sequences
  pub outbox : Table
  pub drawn : ℕ

-- The simulation clock, SIMULATION_CORRELATION_ID, the order of texts in PostgreSQL, and by the number
-- of the draw the fresh ids and random suffixes and numbers. `wall_clock` is `datetime.now`; the scores
-- are what the arithmetic of floats makes of two numbers, `negative n` is -(n + 1) in a payload, and `uniform` is
-- `round(random.uniform(…), 6)` by the number of the draw.
pub record Env : Type 0 where
  pub texts : Texts
  pub now : ℕ
  pub wall_clock : ℕ
  pub accuracy_score : ℕ → ℕ → ℕ
  pub productivity_score : ℕ → ℕ → ℕ
  pub negative : ℕ → Value
  pub simulation_correlation_id : Option String
  pub collate : String → String → Bool
  pub fresh : ℕ → String
  pub randint : ℕ → ℕ → ℕ → ℕ
  pub uniform : ℕ → ℤ → ℤ → Value

-- The column available_quantity, where it is not negative.
abbrev pub available : Inventory → ℕ
available row = row.on_hand_quantity - (row.reserved_quantity + row.damaged_quantity)

-- `available_quantity < quantity`, also where the column is negative.
abbrev pub is_short : ℕ → Inventory → Bool
is_short quantity row =
    ltb row.on_hand_quantity (row.reserved_quantity + row.damaged_quantity + quantity)

-- `available_quantity > 0`
abbrev pub has_available : Inventory → Bool
has_available row = ltb (row.reserved_quantity + row.damaged_quantity) row.on_hand_quantity
