-- ===== src/Executor/Sequence.antt =====
-- event_executor.py: which event follows which, when the handler names none.
use daemon_supply_chain.Common.{String, List, [], ◌∷◌}

pub record Next : Type 0 where
  pub event_type : String
  pub aggregate_type : String
  pub entity_type : String
  pub current_state : String
  pub next_state : String
  pub priority : String

abbrev pub next : String → String → String → String → String → String → Next
next event_type aggregate_type entity_type current_state next_state priority = record {
  event_type = event_type;
  aggregate_type = aggregate_type;
  entity_type = entity_type;
  current_state = current_state;
  next_state = next_state;
  priority = priority;
}

-- `NEXT_EVENT_SEQUENCE`
unfoldable pub next_event_sequence : List (String × Next)
next_event_sequence =
    (
      "PurchaseOrderCreated",
      next "PurchaseOrderApproved" "purchase_orders" "PurchaseOrder" "CREATED" "APPROVED" "HIGH",
    )
    ∷ (
      "PurchaseOrderApproved",
      next "SupplierShipmentCreated" "shipments" "Shipment" "CREATED" "READY" "HIGH",
    )
    ∷ (
      "SupplierShipmentCreated",
      next "ASNReceived" "shipments" "Shipment" "CREATED" "ASN_RECEIVED" "MEDIUM",
    )
    ∷ (
      "ASNReceived",
      next "SupplierShipmentDelivered" "shipments" "Shipment" "IN_TRANSIT" "DELIVERED" "MEDIUM",
    )
    ∷ (
      "SupplierShipmentDelivered",
      next "ReceivingTaskCreated" "warehouse_tasks" "WarehouseTask" "CREATED" "STARTED" "MEDIUM",
    )
    ∷ (
      "ReceivingTaskCreated",
      next "ReceivingTaskStarted" "warehouse_tasks" "WarehouseTask" "CREATED" "STARTED" "MEDIUM",
    )
    ∷ (
      "ReceivingTaskStarted",
      next "GoodsReceived" "warehouse_tasks" "WarehouseTask" "STARTED" "COMPLETED" "MEDIUM",
    )
    ∷ ("GoodsReceived", next "StockIncreased" "inventory" "Inventory" "RECEIVED" "AVAILABLE" "LOW")
    ∷ (
      "StockIncreased",
      next "InventoryPutaway" "inventory_locations" "Inventory" "READY" "PUTAWAY" "LOW",
    )
    ∷ ("InventoryPutaway", next "OrderCreated" "orders" "Order" "CREATED" "RESERVED" "HIGH")
    ∷ ("OrderCreated", next "OrderItemCreated" "order_items" "Order" "CREATED" "ALLOCATED" "HIGH")
    ∷ (
      "OrderItemCreated",
      next "InventoryAllocationCreated" "inventory_allocations" "Order" "PENDING" "ALLOCATED"
          "HIGH",
    )
    ∷ (
      "InventoryAllocationCreated",
      next "InventoryReserved" "inventory_reservations" "Order" "ALLOCATED" "RESERVED" "HIGH",
    )
    ∷ (
      "InventoryReserved",
      next "PickingTaskCreated" "warehouse_tasks" "WarehouseTask" "CREATED" "PICKING" "HIGH",
    )
    ∷ (
      "PickingTaskCreated",
      next "PickingTaskStarted" "warehouse_tasks" "WarehouseTask" "CREATED" "PICKING" "HIGH",
    )
    ∷ (
      "PickingTaskStarted",
      next "PickingCompleted" "warehouse_tasks" "WarehouseTask" "PICKING" "IN_PROGRESS" "HIGH",
    )
    ∷ (
      "PickingCompleted",
      next "PackingTaskCreated" "warehouse_tasks" "WarehouseTask" "CREATED" "PACKING" "MEDIUM",
    )
    ∷ (
      "PackingTaskCreated",
      next "PackingCompleted" "warehouse_tasks" "WarehouseTask" "PACKING" "COMPLETED" "MEDIUM",
    )
    ∷ ("PackingCompleted", next "ShipmentReady" "shipments" "Shipment" "PENDING" "READY" "MEDIUM")
    ∷ ("ShipmentReady", next "CarrierAssigned" "shipments" "Shipment" "READY" "ASSIGNED" "MEDIUM")
    ∷ (
      "CarrierAssigned",
      next "VehicleAssigned" "shipments" "Shipment" "ASSIGNED" "LOADED" "MEDIUM",
    )
    ∷ (
      "VehicleAssigned",
      next "ShipmentPickedUp" "shipments" "Shipment" "LOADED" "IN_TRANSIT" "MEDIUM",
    )
    ∷ (
      "ShipmentPickedUp",
      next "ShipmentDelivered" "shipments" "Shipment" "IN_TRANSIT" "DELIVERED" "MEDIUM",
    )
    ∷ []

-- `DOMAIN_NEXT_EVENT_SEQUENCE`, for events that carry a domain signal; its priority is MEDIUM.
unfoldable pub domain_next_event_sequence : List (String × Next)
domain_next_event_sequence =
    (
      "CustomerOrderCreated",
      next "InventoryReserved" "inventory" "Inventory" "CREATED" "RESERVED" "MEDIUM",
    )
    ∷ (
      "PickingTaskCreated",
      next "PickingStarted" "warehouse_tasks" "WarehouseTask" "CREATED" "STARTED" "MEDIUM",
    )
    ∷ (
      "PickingStarted",
      next "PickingCompleted" "warehouse_tasks" "WarehouseTask" "STARTED" "COMPLETED" "MEDIUM",
    )
    ∷ (
      "PickingCompleted",
      next "PackingStarted" "warehouse_tasks" "WarehouseTask" "COMPLETED" "PACKING" "MEDIUM",
    )
    ∷ (
      "PackingStarted",
      next "Packed" "warehouse_tasks" "WarehouseTask" "PACKING" "PACKED" "MEDIUM",
    )
    ∷ ("Packed", next "OutboundShipmentCreated" "shipments" "Shipment" "PACKED" "CREATED" "MEDIUM")
    ∷ (
      "OutboundShipmentCreated",
      next "CarrierAssigned" "transportation" "Shipment" "CREATED" "ASSIGNED" "MEDIUM",
    )
    ∷ (
      "CarrierAssigned",
      next "TruckLoaded" "transportation" "Shipment" "ASSIGNED" "LOADED" "MEDIUM",
    )
    ∷ (
      "TruckLoaded",
      next "TruckDeparted" "transportation" "Shipment" "LOADED" "IN_TRANSIT" "MEDIUM",
    )
    ∷ (
      "TruckDeparted",
      next "ArrivedAtCustomer" "transportation" "Shipment" "IN_TRANSIT" "DELIVERED" "MEDIUM",
    )
    ∷ (
      "ArrivedAtCustomer",
      next "Delivered" "shipments" "Shipment" "IN_TRANSIT" "DELIVERED" "MEDIUM",
    )
    ∷ (
      "WorkerShiftStarted",
      next "InventoryCycleCount" "warehouse" "Warehouse" "CREATED" "ACTIVE" "MEDIUM",
    )
    ∷ (
      "DemandForecastUpdated",
      next "ReplenishmentTriggered" "inventory" "Inventory" "AVAILABLE" "REPLENISHMENT_REQUIRED"
          "MEDIUM",
    )
    ∷ (
      "SeasonalDemandSpike",
      next "StockReserved" "inventory" "Inventory" "AVAILABLE" "RESERVED" "MEDIUM",
    )
    ∷ (
      "HeavyWeatherCondition",
      next "DelayOccurred" "transportation" "Shipment" "IN_TRANSIT" "DELAYED" "MEDIUM",
    )
    ∷ (
      "DelayOccurred",
      next "CheckpointReached" "transportation" "Shipment" "DELAYED" "IN_TRANSIT" "MEDIUM",
    )
    ∷ []
