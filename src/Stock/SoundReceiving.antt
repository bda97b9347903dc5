-- ===== src/Stock/SoundReceiving.antt =====
-- The generators of receiving keep the rows and the transactions in agreement.
use daemon_supply_chain.Common.{
  ℕ, suc, String, ◌≡◌, refl, inl, inr, arith, Bool-cases, Option, none, some, List, find, any,
  Option-cases,
}
use daemon_supply_chain.Common.Keyed.{find-All, Keyed-KeyedIn}
use daemon_supply_chain.Common.Stateful.{
  Holds, Keeps, Keeps-bind, Keeps-pure, Keeps-gets, Keeps-raise_if, Keeps-or_raise, Keeps-each,
  ◌>>=◌, ◌>>◌,
}
use daemon_supply_chain.Stock.{
  PurchaseOrder, Inventory, ReceivingTask, Shipment, ShipmentItem, Worker, Db, Env,
}
use daemon_supply_chain.Stock.Queries.{
  has_inventory_id, is_task_id, insert_receiving_task, insert_inventory,
}
use daemon_supply_chain.Stock.Ledger.{Entry, by_id, move, post-IsSound, open-IsSound}
use daemon_supply_chain.Stock.Sound.{IsSoundDb, publish-Keeps}
use daemon_supply_chain.Stock.SoundPicking.{release_worker-Keeps}
use daemon_supply_chain.Stock.Inbound.{write_asn, receive_asn, write_delivered, deliver}
use daemon_supply_chain.Stock.Receiving.{
  get_available_receiving_worker, get_receiving_location, write_receiving, receive_shipment,
  start_receiving,
}
use daemon_supply_chain.Stock.GoodsReceived.{
  Received, put_in, received_row, received_transaction, stock_of, stock_item, receive_item,
  close_receiving, receive_goods, receive_started,
}

module _ (opening : List Entry) where
  pub insert_receiving_task-Keeps :
      (t : ReceivingTask) → Keeps (IsSoundDb opening) (insert_receiving_task t)
  unfolding insert_receiving_task
  insert_receiving_task-Keeps t = record {
    at = λ s p. elim (Bool-cases (is_task_id t.task_id s)) [
      | inl taken ↦ rw taken tt
      | inr free ↦ rw free p
    ];
  }

  write_receiving-Keeps :
      (env : Env) (t : ReceivingTask) (worker : Worker) (task_time : ℕ)
      → Keeps (IsSoundDb opening) (write_receiving env t worker task_time)
  unfolding write_receiving ◌>>◌
  write_receiving-Keeps env t worker task_time =
      Keeps-bind _ _ _ (insert_receiving_task-Keeps t) λ u.
        Keeps-bind _ _ _ (record { at = λ s p. p })
          λ u'. Keeps-bind _ _ _ (publish-Keeps opening env _ _ _ _ _) λ id. Keeps-pure _ _

  worker-Keeps :
      (env : Env) (warehouse_id : String)
      → Keeps (IsSoundDb opening) (get_available_receiving_worker env warehouse_id)
  unfolding get_available_receiving_worker
  worker-Keeps env warehouse_id =
      Keeps-bind _ _ _ (Keeps-gets _ _)
        λ workers. Keeps-bind _ _ _ (record { at = λ s p. p }) λ n. Keeps-pure _ _

  location-Keeps :
      (env : Env) (warehouse_id : String)
      → Keeps (IsSoundDb opening) (get_receiving_location env warehouse_id)
  unfolding get_receiving_location
  location-Keeps env warehouse_id =
      Keeps-bind _ _ _ (Keeps-gets _ _)
        λ locations. Keeps-bind _ _ _ (record { at = λ s p. p }) λ n. Keeps-pure _ _

  pub receive_shipment-Keeps :
      (env : Env) (x : Shipment) → Keeps (IsSoundDb opening) (receive_shipment env x)
  unfolding receive_shipment
  receive_shipment-Keeps env x =
      Keeps-bind _ _ _ (record { at = λ s p. p })
        λ minutes. Keeps-bind _ _ _ (worker-Keeps env _) λ available.
          Keeps-bind _ _ _ (Keeps-or_raise _ _ _) λ worker.
            Keeps-bind _ _ _ (location-Keeps env _) λ active.
              Keeps-bind _ _ _ (Keeps-or_raise _ _ _) λ location.
                Keeps-bind _ _ _ (record { at = λ s p. p })
                  λ task_id. write_receiving-Keeps env _ worker _

  pub start_receiving-Keeps :
      (env : Env) (t : ReceivingTask) (worker_id : String) (started_at : ℕ)
      → Keeps (IsSoundDb opening) (start_receiving env t worker_id started_at)
  unfolding start_receiving ◌>>◌
  start_receiving-Keeps env t worker_id started_at =
      Keeps-bind _ _ _ (record { at = λ s p. p })
        λ a.
          Keeps-bind _ _ _ (record { at = λ s p. p })
            λ b.
              Keeps-bind _ _ _ (record { at = λ s p. p })
                λ c. Keeps-bind _ _ _ (publish-Keeps opening env _ _ _ _ _) λ id. Keeps-pure _ _

  module _ (t : ReceivingTask) (received_at : ℕ) (i : ShipmentItem) where
    raised :
        (s : Db) (row : Inventory)
        → IsSoundDb opening s
        → stock_of i.product_id t.warehouse_id s ≡ some row
        → Holds (λ s x t. IsSoundDb opening t) s (receive_item t received_at i s)
    unfolding receive_item stock_item received_transaction move ◌>>=◌ ◌>>◌
    raised s row p found = rw found (
      post-IsSound opening s.inventory s.transactions p.0 row
          (put_in received_at i.shipped_quantity) (received_transaction t i row.inventory_id)
          (find-All (λ r. find (has_inventory_id r.inventory_id) s.inventory ≡ some r) _ s.inventory
            row found (Keyed-KeyedIn by_id s.inventory p.0.keyed))
          (λ r. refl) (λ h. ground arith) refl,
      p.1,
    )

    opened :
        (s : Db)
        → IsSoundDb opening s
        → stock_of i.product_id t.warehouse_id s ≡ none
        → Holds (λ s x t. IsSoundDb opening t) s (receive_item t received_at i s)
    unfolding receive_item stock_item insert_inventory received_row received_transaction move ◌>>=◌
        ◌>>◌
    opened s p missing =
        elim (Bool-cases (any (has_inventory_id (suc s.inventory_sequence)) s.inventory)) [
          | inl taken ↦ rw (missing, taken) tt
          | inr free ↦
              rw (missing, free)
                (
                  open-IsSound opening s.inventory s.transactions p.0
                      (received_row t received_at i (suc s.inventory_sequence))
                      (received_transaction t i (suc s.inventory_sequence)) refl free (omega arith)
                      (ground arith),
                  p.1,
                )
        ]

    receive_item-Keeps : Keeps (IsSoundDb opening) (receive_item t received_at i)
    receive_item-Keeps = record {
      at = λ s p. elim (Option-cases (stock_of i.product_id t.warehouse_id s)) [
        | inl missing ↦ opened s p missing
        | inr (row, found) ↦ raised s row p found
      ];
    }

  close_receiving-Keeps :
      (env : Env) (t : ReceivingTask) (total minutes received_at : ℕ) (created : List Received)
      → Keeps (IsSoundDb opening) (close_receiving env t total minutes received_at created)
  unfolding close_receiving ◌>>◌
  close_receiving-Keeps env t total minutes received_at created =
      Keeps-bind _ _ _ (record { at = λ s p. p })
        λ a. Keeps-bind _ _ _ (release_worker-Keeps opening _) λ b.
          Keeps-bind _ _ _ (record { at = λ s p. p })
            λ c. Keeps-bind _ _ _ (publish-Keeps opening env _ _ _ _ _) λ id. Keeps-pure _ _

  receive_goods-Keeps :
      (env : Env) (t : ReceivingTask) → Keeps (IsSoundDb opening) (receive_goods env t)
  unfolding receive_goods ◌>>◌
  receive_goods-Keeps env t =
      Keeps-bind _ _ _ (record { at = λ s p. p })
        λ minutes. Keeps-bind _ _ _ (Keeps-gets _ _) λ items.
          Keeps-bind _ _ _ (Keeps-raise_if _ _ _) λ a. Keeps-bind _ _ _ (Keeps-raise_if _ _ _) λ b.
            Keeps-bind _ _ _ (Keeps-each _ _ items (receive_item-Keeps t _)) λ created.
              Keeps-bind _ _ _ (close_receiving-Keeps env t _ minutes _ created) λ c. Keeps-pure _ _

  pub receive_started-Keeps :
      (env : Env) (task_id : Option String)
      → Keeps (IsSoundDb opening) (receive_started env task_id)
  unfolding receive_started
  receive_started-Keeps env task_id =
      Keeps-bind _ _ _ (Keeps-gets _ _)
        λ found. Keeps-bind _ _ _ (Keeps-or_raise _ _ _) λ t. receive_goods-Keeps env t

  write_asn-Keeps :
      (env : Env) (po : PurchaseOrder) (x : Shipment) (received_at : ℕ)
      → Keeps (IsSoundDb opening) (write_asn env po x received_at)
  unfolding write_asn ◌>>◌
  write_asn-Keeps env po x received_at =
      Keeps-bind _ _ _ (record { at = λ s p. p })
        λ a. Keeps-bind _ _ _ (publish-Keeps opening env _ _ _ _ _) λ id. Keeps-pure _ _

  pub receive_asn-Keeps : (env : Env) → Keeps (IsSoundDb opening) (receive_asn env)
  unfolding receive_asn
  receive_asn-Keeps env = Keeps-bind _ _ _ (Keeps-gets _ _) λ found.
      Keeps-bind _ _ _ (Keeps-or_raise _ _ _)
        λ row. Keeps-bind _ _ _ (record { at = λ s p. p }) λ minutes. write_asn-Keeps env _ _ _

  write_delivered-Keeps :
      (env : Env) (x : Shipment) (delivered_at : ℕ)
      → Keeps (IsSoundDb opening) (write_delivered env x delivered_at)
  unfolding write_delivered ◌>>◌
  write_delivered-Keeps env x delivered_at =
      Keeps-bind _ _ _ (record { at = λ s p. p })
        λ a. Keeps-bind _ _ _ (publish-Keeps opening env _ _ _ _ _) λ id. Keeps-pure _ _

  pub deliver-Keeps : (env : Env) → Keeps (IsSoundDb opening) (deliver env)
  unfolding deliver ◌>>◌
  deliver-Keeps env = Keeps-bind _ _ _ (Keeps-gets _ _) λ found.
      Keeps-bind _ _ _ (Keeps-or_raise _ _ _) λ x. Keeps-bind _ _ _ (Keeps-gets _ _) λ empty.
        Keeps-bind _ _ _ (Keeps-raise_if _ _ _)
          λ a. Keeps-bind _ _ _ (record { at = λ s p. p }) λ hours. write_delivered-Keeps env x _
