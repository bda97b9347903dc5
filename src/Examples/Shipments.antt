-- ===== src/Examples/Shipments.antt =====
-- Inputs at which the theorems on shipments from a supplier apply.
use daemon_supply_chain.Common.{
  ◌≤◌, String, ◌≡◌, refl, true, false, none, some, List, [], ◌∷◌, Result, ok, err, failure,
}
use daemon_supply_chain.Stock.{Shipment, Db}
use daemon_supply_chain.Stock.Arrived.{has_receiving_task, generate_receiving_task_created_for}
use daemon_supply_chain.Stock.Duplicates.{generate_receiving_task_created_for_twice}
use daemon_supply_chain.Examples.Stocks.{stock_env, stocked}
use daemon_supply_chain.Examples.Inbound.{clerk, parcel, parcel_item}

abbrev under_way : Db
under_way = record stocked {
  shipments = record parcel { shipment_status = "ASN_RECEIVED" } ∷ [];
  shipment_items = parcel_item 2 "PROD-2" 3 ∷ parcel_item 1 "PROD-1" 5 ∷ [];
}

abbrev at_dock : Db
at_dock = record under_way {
  shipments = record parcel { shipment_status = "ARRIVED" } ∷ [];
  workers = clerk ∷ [];
}

abbrev taken_on : Result String × Db
taken_on = generate_receiving_task_created_for stock_env "SHIP-1" at_dock

generate_receiving_task_created_for_twice_example :
    (generate_receiving_task_created_for stock_env "SHIP-1" taken_on.1
      ≡ (err (failure "Receiving task already exists"), taken_on.1))
    × (has_receiving_task "SHIP-1" at_dock ≡ false)
unfolding generate_receiving_task_created_for daemon_supply_chain.Common.Stateful.transaction
    daemon_supply_chain.Stock.Arrived.create_for_arrived daemon_supply_chain.Common.Stateful.◌>>=◌
    daemon_supply_chain.Common.Stateful.◌>>◌ daemon_supply_chain.Stock.Arrived.assign_receiving
    daemon_supply_chain.Stock.Counts.count_workers daemon_supply_chain.Stock.Arrived.write_arrived
    daemon_supply_chain.Stock.Queries.insert_receiving_task
    daemon_supply_chain.Stock.Queries.publish daemon_supply_chain.Outbox.publish_event
    daemon_supply_chain.Outbox.publish_row daemon_supply_chain.Outbox.insert_row
    daemon_supply_chain.Stock.Arrived.arrived_row daemon_supply_chain.Ids.next_id
    daemon_supply_chain.Ids.format_id daemon_supply_chain.Ids.zfill
    daemon_supply_chain.Ids.str_number daemon_supply_chain.Outbox.earliest
    daemon_supply_chain.Outbox.published_row daemon_supply_chain.Outbox.same_cause
    daemon_supply_chain.Stock.Arrived.arrived_task_payload
generate_receiving_task_created_for_twice_example =
    generate_receiving_task_created_for_twice stock_env stock_env "SHIP-1" "TASK-000000001" at_dock
      taken_on.1 refl
