-- ===== src/Examples/Inbound.antt =====
-- Inputs at which the theorems on receiving and putaway apply.
use daemon_supply_chain.Common.{
  ℕ, ◌+◌, String, ◌≡◌, refl, true, false, Bool, Option, none, some, List, [], ◌∷◌, arith, map,
  Result, ok, err, failure,
}
use daemon_supply_chain.Common.Stateful.{Holds}
use daemon_supply_chain.Stock.{Inventory, Worker, Shipment, ShipmentItem, ReceivingTask, Db, Env}
use daemon_supply_chain.Stock.GoodsReceived.{Receipt, generate_goods_received}
use daemon_supply_chain.Stock.Received.{
  IsReceipt, generate_goods_received-IsReceipt, generate_goods_received_twice,
}
use daemon_supply_chain.Examples.Stocks.{stock_env, stocked}

abbrev pub parcel : Shipment
parcel = record {
  shipment_id = "SHIP-1";
  po_id = "PO-1";
  supplier_id = "SUP-1";
  warehouse_id = "WH-1";
  shipment_status = "DELIVERED";
  shipment_date = some 10;
  expected_delivery = some 15;
  created_at = some 10;
  actual_delivery = some 20;
  updated_at = none;
  total_quantity = 8;
  receiving_task_created = false;
  correlation_id = "corr-2";
}

abbrev pub parcel_item : ℕ → String → ℕ → ShipmentItem
parcel_item id product_id quantity = record {
  shipment_item_id = id;
  shipment_id = "SHIP-1";
  product_id = product_id;
  shipped_quantity = quantity;
  received_quantity = 0;
}

abbrev pub clerk : Worker
clerk = record {
  worker_id = "W-1";
  warehouse_id = "WH-1";
  current_status = "AVAILABLE";
  employment_status = "Active";
  role = "Inventory Clerk";
}

abbrev unloading : ReceivingTask
unloading = record {
  task_id = "TASK-1";
  warehouse_id = "WH-1";
  shipment_id = "SHIP-1";
  location = some "LOC-1";
  quantity = 8;
  expected_quantity = 8;
  received_quantity = none;
  priority = "HIGH";
  status = "STARTED";
  assigned_worker_id = some "W-1";
  estimated_minutes = 30;
  actual_minutes = none;
  created_at = some 30;
  assigned_at = some 30;
  task_started_at = some 40;
  task_completed_at = none;
  completed_at = none;
  created_by = "SYSTEM";
  started_by = some "W-1";
  completed_by = none;
  dock_location = "DOCK-001";
  correlation_id = "corr-2";
}

-- A shipment of a product that is in stock and of one that is not, which is being unloaded.
abbrev unloaded : Db
unloaded = record stocked {
  shipments = parcel ∷ [];
  shipment_items = parcel_item 2 "PROD-2" 3 ∷ parcel_item 1 "PROD-1" 5 ∷ [];
  receiving_tasks = unloading ∷ [];
  workers = clerk ∷ [];
}

abbrev received : Result Receipt × Db
received = generate_goods_received stock_env (some "TASK-1") unloaded

quantities : List Inventory → List ℕ
quantities = map (λ row. row.on_hand_quantity)

raised_and_opened : quantities received.1.inventory ≡ 9 ∷ 6 ∷ 3 ∷ []
unfolding quantities generate_goods_received daemon_supply_chain.Common.Stateful.transaction
    daemon_supply_chain.Stock.GoodsReceived.receive_started
    daemon_supply_chain.Common.Stateful.◌>>=◌
    daemon_supply_chain.Stock.GoodsReceived.find_started_receiving
    daemon_supply_chain.Stock.GoodsReceived.receive_goods daemon_supply_chain.Common.Stateful.◌>>◌
    daemon_supply_chain.Stock.GoodsReceived.items_of_shipment
    daemon_supply_chain.Common.Stateful.each daemon_supply_chain.Stock.GoodsReceived.receive_item
    daemon_supply_chain.Stock.GoodsReceived.stock_item
    daemon_supply_chain.Stock.Queries.insert_inventory
    daemon_supply_chain.Stock.GoodsReceived.close_receiving
    daemon_supply_chain.Stock.Queries.publish daemon_supply_chain.Outbox.publish_event
    daemon_supply_chain.Outbox.publish_row daemon_supply_chain.Outbox.insert_row
    daemon_supply_chain.Stock.GoodsReceived.received_row daemon_supply_chain.Outbox.earliest
    daemon_supply_chain.Outbox.published_row daemon_supply_chain.Outbox.same_cause
    daemon_supply_chain.Stock.GoodsReceived.get_goods_received_time
    daemon_supply_chain.Stock.GoodsReceived.goods_received_payload
    daemon_supply_chain.Stock.GoodsReceived.received_transaction
raised_and_opened = refl

abbrev receipt : Receipt
receipt = record {
  task_id = "TASK-1";
  shipment_id = "SHIP-1";
  received_quantity = 8;
  inventory =
      record { inventory_id = 1; product_id = "PROD-1"; quantity = 5 }
      ∷ record { inventory_id = 3; product_id = "PROD-2"; quantity = 3 }
      ∷ [];
}

generate_goods_received_twice_example :
    generate_goods_received stock_env (some "TASK-1") received.1
    ≡ (err (failure "No STARTED receiving task found"), received.1)
unfolding generate_goods_received daemon_supply_chain.Common.Stateful.transaction
    daemon_supply_chain.Stock.GoodsReceived.receive_started
    daemon_supply_chain.Common.Stateful.◌>>=◌
    daemon_supply_chain.Stock.GoodsReceived.find_started_receiving
    daemon_supply_chain.Stock.GoodsReceived.receive_goods daemon_supply_chain.Common.Stateful.◌>>◌
    daemon_supply_chain.Stock.GoodsReceived.items_of_shipment
    daemon_supply_chain.Common.Stateful.each daemon_supply_chain.Stock.GoodsReceived.receive_item
    daemon_supply_chain.Stock.GoodsReceived.stock_item
    daemon_supply_chain.Stock.Queries.insert_inventory
    daemon_supply_chain.Stock.GoodsReceived.close_receiving
    daemon_supply_chain.Stock.Queries.publish daemon_supply_chain.Outbox.publish_event
    daemon_supply_chain.Outbox.publish_row daemon_supply_chain.Outbox.insert_row
    daemon_supply_chain.Stock.GoodsReceived.received_row daemon_supply_chain.Outbox.earliest
    daemon_supply_chain.Outbox.published_row daemon_supply_chain.Outbox.same_cause
    daemon_supply_chain.Stock.GoodsReceived.get_goods_received_time
    daemon_supply_chain.Stock.GoodsReceived.goods_received_payload
    daemon_supply_chain.Stock.GoodsReceived.received_transaction
generate_goods_received_twice_example =
    generate_goods_received_twice stock_env "TASK-1" unloaded received.1 receipt (refl, (refl, tt))
      refl refl

generate_goods_received-IsReceipt_example :
    Holds (IsReceipt stock_env (some "TASK-1")) unloaded received
generate_goods_received-IsReceipt_example =
    generate_goods_received-IsReceipt stock_env (some "TASK-1") unloaded (refl, (refl, tt))
