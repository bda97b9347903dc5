-- ===== src/Examples/Stocks.antt =====
-- Inputs at which the theorems on the stock apply.
use daemon_supply_chain.Common.{
  ℕ, zero, suc, ◌≤◌, All, String, ◌≡◌, refl, true, Bool, Option, none, some, List, [], ◌∷◌, ◌==◌,
  false, arith, map, failure, Result, ok, err,
}
use daemon_supply_chain.Common.Stateful.{Holds}
use daemon_supply_chain.Stock.{Inventory, Location, Order, OrderItem, Allocation, Task, Db, Env}
use daemon_supply_chain.Values.{null}
use daemon_supply_chain.Stock.Queries.{given}
use daemon_supply_chain.Stock.Ledger.{entry, replay}
use daemon_supply_chain.Stock.Sound.{IsSoundDb}
use daemon_supply_chain.Stock.Steps.{Step, Reaches, Reaches-IsSoundDb}
use daemon_supply_chain.Stock.Allocate.{generate_inventory_allocation_created}
use daemon_supply_chain.Stock.Reserve.{generate_inventory_reserved}
use daemon_supply_chain.Stock.Allocated.{
  IsAllocation, generate_inventory_allocation_created-IsAllocation,
}
use daemon_supply_chain.Stock.Allocate.{allocation_row, allocate_rows}
use daemon_supply_chain.Stock.Reserved.{IsReservation, generate_inventory_reserved-IsReservation}
use daemon_supply_chain.Examples.Setup.{plain_texts, noon, lowest}

abbrev letter : ℕ → String
letter zero = "A"
letter (suc zero) = "B"
letter (suc (suc n)) = "C"

abbrev pub stock_env : Env
stock_env = record {
  texts = plain_texts;
  now = noon;
  wall_clock = noon;
  accuracy_score = λ expected actual. 10000;
  productivity_score = λ accuracy drawn. 9000;
  negative = λ n. null;
  simulation_correlation_id = none;
  collate = λ a b. true;
  fresh = letter;
  randint = lowest;
  uniform = λ n lo hi. null;
}

abbrev pub shelf : ℕ → ℕ → Inventory
shelf id on_hand = record {
  inventory_id = id;
  product_id = "PROD-1";
  warehouse_id = "WH-1";
  on_hand_quantity = on_hand;
  reserved_quantity = 0;
  damaged_quantity = 1;
  inventory_status = "AVAILABLE";
  location_id = some "LOC-1";
  correlation_id = "corr-1";
  last_updated_at = none;
}

abbrev order : Order
order = record {
  order_id = "ORD-1";
  warehouse_id = "WH-1";
  correlation_id = "corr-1";
  order_status = "CREATED";
  items_created = true;
  created_at = noon;
}

abbrev order_item : OrderItem
order_item = record { order_item_id = 1; order_id = "ORD-1"; product_id = "PROD-1"; quantity = 6 }

abbrev pub aisle : Location
aisle = record {
  location_id = "LOC-1";
  warehouse_id = "WH-1";
  capacity_units = some 20;
  current_utilization = 12;
  status = "ACTIVE";
}

abbrev pub stocked : Db
stocked = record {
  inventory = shelf 1 4 ∷ shelf 2 6 ∷ [];
  orders = order ∷ [];
  order_items = order_item ∷ [];
  allocations = [];
  reservations = [];
  transactions = [];
  tasks = [];
  packing_tasks = [];
  packages = [];
  package_items = [];
  workers = [];
  locations = aisle ∷ [];
  purchase_orders = [];
  shipments = [];
  trackings = [];
  shipment_items = [];
  receiving_tasks = [];
  count_tasks = [];
  adjustments = [];
  productivity = [];
  fulfillments = [];
  outbound_shipments = [];
  transportations = [];
  outbound_trackings = [];
  vehicles = [];
  trailers = [];
  drivers = [];
  inventory_sequence = 2;
  transportation_sequence = 0;
  sequences = λ name. 0;
  outbox = [];
  drawn = 0;
}

abbrev allocated : Result (String × List Allocation) × Db
allocated = generate_inventory_allocation_created stock_env (some "ORD-1") stocked

quantities : List Allocation → List ℕ
quantities allocations = map (λ (a : Allocation). a.allocated_quantity) allocations

split_in_two : quantities allocated.1.allocations ≡ 5 ∷ 1 ∷ []
unfolding quantities daemon_supply_chain.Common.Stateful.transaction
    daemon_supply_chain.Common.Stateful.◌>>=◌ daemon_supply_chain.Common.Stateful.◌>>◌
    daemon_supply_chain.Common.Stateful.each daemon_supply_chain.Stock.Queries.publish
    daemon_supply_chain.Outbox.publish_event daemon_supply_chain.Outbox.publish_row
    daemon_supply_chain.Outbox.earliest daemon_supply_chain.Outbox.insert_row
    daemon_supply_chain.Outbox.published_row daemon_supply_chain.Outbox.same_cause
    generate_inventory_allocation_created daemon_supply_chain.Stock.Allocate.allocate_order
    daemon_supply_chain.Stock.Allocate.find_order daemon_supply_chain.Stock.Allocate.allocate_item
    daemon_supply_chain.Stock.Allocate.check_existing_allocation
    daemon_supply_chain.Stock.Allocate.find_available_inventory
    daemon_supply_chain.Stock.Allocate.create_allocation
    daemon_supply_chain.Stock.Allocate.allocation_payload allocate_rows allocation_row
    daemon_supply_chain.Stock.Queries.insert_allocation
split_in_two = refl

generate_inventory_allocation_created-IsAllocation_example :
    Holds (IsAllocation (some "ORD-1")) stocked allocated
generate_inventory_allocation_created-IsAllocation_example =
    (generate_inventory_allocation_created-IsAllocation stock_env (some "ORD-1")).at stocked

abbrev reserved : Result (String × List Allocation) × Db
reserved = generate_inventory_reserved stock_env none allocated.1

generate_inventory_reserved-IsReservation_example :
    Holds (IsReservation stock_env none) allocated.1 reserved
generate_inventory_reserved-IsReservation_example =
    (generate_inventory_reserved-IsReservation stock_env none).at allocated.1

pub stocked-IsSoundDb : IsSoundDb (map entry stocked.inventory) stocked
unfolding replay
stocked-IsSoundDb = (
  record {
    keyed = (refl, (refl, tt));
    covered = (omega arith, (omega arith, tt));
    explained = refl;
  },
  record { keyed = (refl, tt); within = (omega arith, tt) },
)

two_steps : Reaches stocked reserved.1
two_steps =
    Reaches.after stocked allocated.1 reserved.1
      (Reaches.after stocked stocked allocated.1 (Reaches.none_yet stocked)
        (Step.allocated stock_env (some "ORD-1") stocked))
      (Step.reserved stock_env none allocated.1)

Reaches-IsSoundDb_example : IsSoundDb (map entry stocked.inventory) reserved.1
Reaches-IsSoundDb_example =
    Reaches-IsSoundDb (map entry stocked.inventory) stocked reserved.1 two_steps stocked-IsSoundDb
