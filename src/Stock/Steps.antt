-- ===== src/Stock/Steps.antt =====
-- The life of the stock: calls of the generators, in any order and with any arguments, each one
-- transaction.
use daemon_supply_chain.Common.{ℕ, String, Option, List}
use daemon_supply_chain.Common.Stateful.{
  Keeps-bind, Keeps-pure, Keeps-gets, Keeps-raise_if, Keeps-or_raise, transaction-keeps, ◌>>◌,
}
use daemon_supply_chain.Stock.{Db, Env}
use daemon_supply_chain.Stock.Ledger.{Entry}
use daemon_supply_chain.Stock.Sound.{IsSoundDb, publish-Keeps, reserve_order-Keeps}
use daemon_supply_chain.Stock.SoundPicking.{
  complete_picking-Keeps, allocate_order-Keeps, create_tasks-Keeps,
}
use daemon_supply_chain.Stock.SoundPacking.{create_packing-Keeps, complete_packable-Keeps}
use daemon_supply_chain.Stock.PackingTasks.{
  generate_packing_task_created, generate_packing_task_started,
}
use daemon_supply_chain.Stock.SoundReceiving.{
  receive_shipment-Keeps, start_receiving-Keeps, receive_started-Keeps, receive_asn-Keeps,
  deliver-Keeps,
}
use daemon_supply_chain.Stock.SoundCounts.{
  create_count-Keeps, start_next-Keeps, complete_started_count-Keeps,
}
use daemon_supply_chain.Stock.Inbound.{generate_asn_received, deliver_supplier_shipment}
use daemon_supply_chain.Stock.SoundArrived.{arrive-Keeps, create_for_arrived-Keeps}
use daemon_supply_chain.Stock.Arrived.{
  generate_shipment_arrived, generate_receiving_task_created_for,
}
use daemon_supply_chain.Stock.Counts.{generate_cycle_count_created}
use daemon_supply_chain.Stock.TaskStarted.{generate_task_started}
use daemon_supply_chain.Stock.CountsCompleted.{generate_cycle_count_completed}
use daemon_supply_chain.Stock.SoundPutaway.{putaway_row-Keeps}
use daemon_supply_chain.Stock.Receiving.{
  generate_receiving_task_created, generate_receiving_task_started,
}
use daemon_supply_chain.Stock.GoodsReceived.{generate_goods_received}
use daemon_supply_chain.Stock.Putaway.{generate_inventory_putaway}
use daemon_supply_chain.Stock.PackingCompleted.{generate_packing_completed}
use daemon_supply_chain.Stock.Allocate.{generate_inventory_allocation_created}
use daemon_supply_chain.Stock.Reserve.{generate_inventory_reserved}
use daemon_supply_chain.Stock.PickingTasks.{
  generate_picking_task_created, generate_picking_task_started,
}
use daemon_supply_chain.Stock.PickingCompleted.{complete_started, generate_picking_completed}
use daemon_supply_chain.Stock.StockIncreased.{generate_stock_increased}
use daemon_supply_chain.Stock.SoundIncrease.{increased_sound}

-- One call of a generator, whether it returns or raises.
pub data Step : Db → Db → Type 0 where
  allocated :
      (env : Env) (order_id : Option String) (s : Db)
      → Step s (generate_inventory_allocation_created env order_id s).1
  reserved :
      (env : Env) (order_id : Option String) (s : Db)
      → Step s (generate_inventory_reserved env order_id s).1
  tasks_created :
      (env : Env) (order_id : Option String) (s : Db)
      → Step s (generate_picking_task_created env order_id s).1
  task_started :
      (env : Env) (task_id : String) (s : Db)
      → Step s (generate_picking_task_started env task_id s).1
  picked :
      (env : Env) (task_id order_id : Option String) (s : Db)
      → Step s (generate_picking_completed env task_id order_id s).1
  packing_created :
      (env : Env) (order_id : Option String) (s : Db)
      → Step s (generate_packing_task_created env order_id s).1
  packing_started :
      (env : Env) (task_id : String) (s : Db)
      → Step s (generate_packing_task_started env task_id s).1
  packed :
      (env : Env) (task_id : Option String) (s : Db)
      → Step s (generate_packing_completed env task_id s).1
  increased :
      (env : Env) (inventory_id : Option ℕ) (s : Db)
      → Step s (generate_stock_increased env inventory_id s).1
  asn_received : (env : Env) (s : Db) → Step s (generate_asn_received env s).1
  delivered : (env : Env) (s : Db) → Step s (deliver_supplier_shipment env s).1
  arrived : (env : Env) (s : Db) → Step s (generate_shipment_arrived env s).1
  task_for_arrived :
      (env : Env) (shipment_id : String) (s : Db)
      → Step s (generate_receiving_task_created_for env shipment_id s).1
  receiving_created : (env : Env) (s : Db) → Step s (generate_receiving_task_created env s).1
  receiving_started :
      (env : Env) (task_id : Option String) (s : Db)
      → Step s (generate_receiving_task_started env task_id s).1
  goods_received :
      (env : Env) (task_id : Option String) (s : Db)
      → Step s (generate_goods_received env task_id s).1
  put_away :
      (env : Env) (inventory_id : Option ℕ) (s : Db)
      → Step s (generate_inventory_putaway env inventory_id s).1
  count_created : (env : Env) (s : Db) → Step s (generate_cycle_count_created env s).1
  any_started : (env : Env) (s : Db) → Step s (generate_task_started env s).1
  count_completed : (env : Env) (s : Db) → Step s (generate_cycle_count_completed env s).1

pub data Reaches : Db → Db → Type 0 where
  none_yet : (s : Db) → Reaches s s
  after : (s t u : Db) → Reaches s t → Step t u → Reaches s u

module _ (opening : List Entry) where
  step_sound : (s t : Db) → Step s t → IsSoundDb opening s → IsSoundDb opening t
  unfolding generate_inventory_allocation_created generate_inventory_reserved
      generate_picking_task_created generate_picking_task_started generate_packing_task_created
      generate_packing_task_started generate_packing_completed generate_picking_completed
      complete_started generate_receiving_task_created generate_receiving_task_started
      generate_goods_received generate_inventory_putaway generate_cycle_count_created
      generate_task_started generate_cycle_count_completed generate_asn_received
      deliver_supplier_shipment generate_shipment_arrived generate_receiving_task_created_for ◌>>◌
  step_sound _ _ (Step.allocated env order_id s) p =
      transaction-keeps (IsSoundDb opening) _ (allocate_order-Keeps opening env _) s p
  step_sound _ _ (Step.reserved env order_id s) p =
      transaction-keeps (IsSoundDb opening) _ (reserve_order-Keeps opening env _) s p
  step_sound _ _ (Step.tasks_created env order_id s) p =
      transaction-keeps (IsSoundDb opening) _ (create_tasks-Keeps opening env _) s p
  step_sound _ _ (Step.task_started env task_id s) p =
      transaction-keeps (IsSoundDb opening) _
        (Keeps-bind _ _ _ (Keeps-gets _ _) λ found. Keeps-bind _ _ _ (Keeps-or_raise _ _ _) λ task.
          Keeps-bind _ _ _ (Keeps-raise_if _ _ _) λ u.
            Keeps-bind _ _ _ (record { at = λ s p. p })
              λ u'. Keeps-bind _ _ _ (publish-Keeps opening env _ _ _ _ _) λ id. Keeps-pure _ _)
        s p
  step_sound _ _ (Step.packing_started env task_id s) p =
      transaction-keeps (IsSoundDb opening) _
        (Keeps-bind _ _ _ (Keeps-gets _ _) λ found. Keeps-bind _ _ _ (Keeps-or_raise _ _ _) λ task.
          Keeps-bind _ _ _ (Keeps-raise_if _ _ _) λ u.
            Keeps-bind _ _ _ (record { at = λ s p. p })
              λ u'. Keeps-bind _ _ _ (publish-Keeps opening env _ _ _ _ _) λ id. Keeps-pure _ _)
        s p
  step_sound _ _ (Step.packing_created env order_id s) p =
      transaction-keeps (IsSoundDb opening) _ (create_packing-Keeps opening env _) s p
  step_sound _ _ (Step.packed env task_id s) p =
      transaction-keeps (IsSoundDb opening) _ (complete_packable-Keeps opening env _) s p
  step_sound _ _ (Step.picked env task_id order_id s) p =
      transaction-keeps (IsSoundDb opening) _
        (Keeps-bind _ _ _ (Keeps-gets _ _) λ found.
          Keeps-bind _ _ _ (Keeps-or_raise _ _ _)
            λ task. Keeps-bind _ _ _ (complete_picking-Keeps opening env task) λ u. Keeps-pure _ _)
        s p
  step_sound _ _ (Step.increased env inventory_id s) p =
      increased_sound opening env inventory_id s p
  step_sound _ _ (Step.asn_received env s) p =
      transaction-keeps (IsSoundDb opening) _ (receive_asn-Keeps opening env) s p
  step_sound _ _ (Step.delivered env s) p =
      transaction-keeps (IsSoundDb opening) _ (deliver-Keeps opening env) s p
  step_sound _ _ (Step.arrived env s) p =
      transaction-keeps (IsSoundDb opening) _ (arrive-Keeps opening env) s p
  step_sound _ _ (Step.task_for_arrived env shipment_id s) p =
      transaction-keeps (IsSoundDb opening) _ (create_for_arrived-Keeps opening env shipment_id) s p
  step_sound _ _ (Step.receiving_created env s) p =
      transaction-keeps (IsSoundDb opening) _
        (Keeps-bind _ _ _ (Keeps-gets _ _) λ found.
          Keeps-bind _ _ _ (Keeps-or_raise _ _ _) λ x. receive_shipment-Keeps opening env x)
        s p
  step_sound _ _ (Step.receiving_started env task_id s) p =
      transaction-keeps (IsSoundDb opening) _
        (Keeps-bind _ _ _ (Keeps-gets _ _) λ found. Keeps-bind _ _ _ (Keeps-or_raise _ _ _) λ t.
          Keeps-bind _ _ _ (Keeps-or_raise _ _ _) λ worker_id.
            Keeps-bind _ _ _ (record { at = λ s p. p })
              λ minutes. start_receiving-Keeps opening env t worker_id _)
        s p
  step_sound _ _ (Step.goods_received env task_id s) p =
      transaction-keeps (IsSoundDb opening) _ (receive_started-Keeps opening env _) s p
  step_sound _ _ (Step.put_away env inventory_id s) p =
      transaction-keeps (IsSoundDb opening) _
        (Keeps-bind _ _ _ (Keeps-or_raise _ _ _) λ id. putaway_row-Keeps opening env id) s p
  step_sound _ _ (Step.count_created env s) p =
      transaction-keeps (IsSoundDb opening) _ (create_count-Keeps opening env) s p
  step_sound _ _ (Step.any_started env s) p =
      transaction-keeps (IsSoundDb opening) _ (start_next-Keeps opening env) s p
  step_sound _ _ (Step.count_completed env s) p =
      transaction-keeps (IsSoundDb opening) _ (complete_started_count-Keeps opening env) s p

  -- From a database where no two inventory rows and no two locations have one id, rows hold no less
  -- than is reserved and damaged, quantities are what the transactions make of opening entries, and
  -- locations hold no more than their capacity, any calls of the generators of stock, tasks, counts
  -- and inbound shipments, in any order and with any arguments, but neither inventory_adjusted nor
  -- inventory_received, lead to such a database for the same opening entries.
  pub Reaches-IsSoundDb : (s t : Db) → Reaches s t → IsSoundDb opening s → IsSoundDb opening t
  Reaches-IsSoundDb _ _ (Reaches.none_yet s) p = p
  Reaches-IsSoundDb _ _ (Reaches.after s u t r step) p =
      step_sound u t step (Reaches-IsSoundDb s u r p)
