-- ===== src/StateMachine.antt =====
-- simulator/core/event_state_machine.py: the states of the business entities, the transitions
-- between them, and the state that each event type stands for.
pub mod Laws
use daemon_supply_chain.Common.{
  String, Bool, true, false, ◌||◌, Option, none, some, List, [], ◌∷◌, ◌==◌, if◌then◌else◌, lookup,
  elem, any,
}
use daemon_supply_chain.Common.Text.{upper, lower, strip}

-- The states of one entity, each with the states that may follow.
abbrev pub States : Type 0
States = List (String × List String)

abbrev pub purchase_order_states : States
purchase_order_states =
    ("CREATED", "APPROVED" ∷ "CANCELLED" ∷ [])
    ∷ ("APPROVED", "CANCELLED" ∷ [])
    ∷ ("CANCELLED", [])
    ∷ []

abbrev pub shipment_states : States
shipment_states =
    ("PENDING", "READY" ∷ [])
    ∷ ("CREATED", "ASN_RECEIVED" ∷ "READY" ∷ [])
    ∷ ("READY", "ASSIGNED" ∷ "IN_TRANSIT" ∷ [])
    ∷ ("ASN_RECEIVED", "IN_TRANSIT" ∷ [])
    ∷ ("ASSIGNED", "LOADED" ∷ [])
    ∷ ("LOADED", "IN_TRANSIT" ∷ [])
    ∷ ("IN_TRANSIT", "DELIVERED" ∷ [])
    ∷ ("DELIVERED", [])
    ∷ []

abbrev pub inventory_states : States
inventory_states =
    ("RECEIVED", "AVAILABLE" ∷ [])
    ∷ ("AVAILABLE", "PUTAWAY" ∷ [])
    ∷ ("READY", "PUTAWAY" ∷ [])
    ∷ ("PUTAWAY", [])
    ∷ []

abbrev pub warehouse_task_states : States
warehouse_task_states =
    ("CREATED", "STARTED" ∷ "PICKING" ∷ "PACKING" ∷ [])
    ∷ ("STARTED", "COMPLETED" ∷ [])
    ∷ ("PICKING", "IN_PROGRESS" ∷ [])
    ∷ ("IN_PROGRESS", "COMPLETED" ∷ [])
    ∷ ("PACKING", "COMPLETED" ∷ [])
    ∷ ("COMPLETED", [])
    ∷ []

abbrev pub order_states : States
order_states =
    ("CREATED", "ALLOCATED" ∷ "RESERVED" ∷ [])
    ∷ ("PENDING", "ALLOCATED" ∷ [])
    ∷ ("ALLOCATED", "RESERVED" ∷ [])
    ∷ ("RESERVED", "PICKING" ∷ [])
    ∷ ("PICKING", "PACKED" ∷ [])
    ∷ ("PACKED", "SHIPPED" ∷ [])
    ∷ ("SHIPPED", "DELIVERED" ∷ [])
    ∷ ("DELIVERED", [])
    ∷ []

unfoldable pub state_machine : List (String × States)
state_machine =
    ("PurchaseOrder", purchase_order_states)
    ∷ ("Shipment", shipment_states)
    ∷ ("Inventory", inventory_states)
    ∷ ("WarehouseTask", warehouse_task_states)
    ∷ ("Order", order_states)
    ∷ []

pub record EntityState : Type 0 where
  pub entity : String
  pub state : String

abbrev pub at : String → String → EntityState
at entity state = record { entity = entity; state = state }

unfoldable pub event_to_entity_and_state : List (String × EntityState)
event_to_entity_and_state =
    ("PurchaseOrderCreated", at "PurchaseOrder" "CREATED")
    ∷ ("PurchaseOrderApproved", at "PurchaseOrder" "APPROVED")
    ∷ ("PurchaseOrderCancelled", at "PurchaseOrder" "CANCELLED")
    ∷ ("SupplierShipmentCreated", at "Shipment" "CREATED")
    ∷ ("ASNReceived", at "Shipment" "ASN_RECEIVED")
    ∷ ("ShipmentReady", at "Shipment" "READY")
    ∷ ("CarrierAssigned", at "Shipment" "ASSIGNED")
    ∷ ("VehicleAssigned", at "Shipment" "LOADED")
    ∷ ("ShipmentPickedUp", at "Shipment" "IN_TRANSIT")
    ∷ ("ShipmentInTransit", at "Shipment" "IN_TRANSIT")
    ∷ ("ShipmentDelivered", at "Shipment" "DELIVERED")
    ∷ ("ReceivingTaskCreated", at "WarehouseTask" "CREATED")
    ∷ ("ReceivingTaskStarted", at "WarehouseTask" "STARTED")
    ∷ ("GoodsReceived", at "WarehouseTask" "COMPLETED")
    ∷ ("StockIncreased", at "Inventory" "AVAILABLE")
    ∷ ("InventoryPutaway", at "Inventory" "PUTAWAY")
    ∷ ("OrderCreated", at "Order" "CREATED")
    ∷ ("OrderItemCreated", at "Order" "ALLOCATED")
    ∷ ("InventoryAllocationCreated", at "Order" "ALLOCATED")
    ∷ ("InventoryReserved", at "Order" "RESERVED")
    ∷ ("PickingTaskCreated", at "WarehouseTask" "CREATED")
    ∷ ("PickingTaskStarted", at "WarehouseTask" "PICKING")
    ∷ ("PickingCompleted", at "WarehouseTask" "COMPLETED")
    ∷ ("PackingTaskCreated", at "WarehouseTask" "CREATED")
    ∷ ("PackingCompleted", at "WarehouseTask" "COMPLETED")
    ∷ ("ShipmentDispatched", at "Order" "SHIPPED")
    ∷ ("OrderDelivered", at "Order" "DELIVERED")
    ∷ []

unfoldable pub aliases : List (String × String)
aliases =
    ("purchase_orders", "PurchaseOrder")
    ∷ ("purchase_order", "PurchaseOrder")
    ∷ ("shipments", "Shipment")
    ∷ ("shipment", "Shipment")
    ∷ ("inventory", "Inventory")
    ∷ ("inventory_locations", "Inventory")
    ∷ ("inventory_location", "Inventory")
    ∷ ("orders", "Order")
    ∷ ("order", "Order")
    ∷ ("warehouse_tasks", "WarehouseTask")
    ∷ ("warehouse_task", "WarehouseTask")
    ∷ ("inventory_allocations", "Order")
    ∷ ("inventory_reservations", "Order")
    ∷ ("order_items", "Order")
    ∷ []

-- `None` stays `None`, and a name that no alias has stays as it is.
unfoldable pub normalize_entity_type : Option String → Option String
normalize_entity_type none = none
normalize_entity_type (some value) = elim (lookup (lower (strip value)) aliases) [
  | some entity ↦ some entity
  | none ↦ some value
]

-- `next in states.get(current, set())`
unfoldable pub allows : States → String → String → Bool
allows states current next = elim (lookup current states) [
  | some followers ↦ elem next followers
  | none ↦ false
]

-- With an entity its own machine decides; with none, any machine that allows the step does.
unfoldable pub allows_entity : Option String → String → String → Bool
allows_entity none current next = any (λ m. allows m.1 current next) state_machine
allows_entity (some entity) current next = elim (lookup entity state_machine) [
  | some states ↦ allows states current next
  | none ↦ false
]

unfoldable pub validate_transition : Option String → Option String → Option String → Bool
validate_transition (some current) (some next) entity_type =
    allows_entity (normalize_entity_type entity_type) (upper current) (upper next)
validate_transition _ _ _ = true

unfoldable pub infer_next_state : String → Option String
infer_next_state event_type = elim (lookup event_type event_to_entity_and_state) [
  | some found ↦ some found.state
  | none ↦ none
]

unfoldable pub infer_entity_type : String → Option String
infer_entity_type event_type = elim (lookup event_type event_to_entity_and_state) [
  | some found ↦ some found.entity
  | none ↦ none
]
