-- ===== src/Stock/SoundPicking.antt =====
-- The generators of picking, of allocation and of increases keep the rows and the transactions in
-- agreement.
use daemon_supply_chain.Common.{
  ℕ, String, ◌≡◌, refl, inl, inr, arith, ltb, leb, false, Bool-cases, Option, none, some, List, [],
  ◌∷◌, ◌++◌, map, find, any, Option-cases,
}
use daemon_supply_chain.Common.Stateful.{
  Holds, Keeps, Keeps-bind, Keeps-continue, Keeps-pure, Keeps-gets, Keeps-raise_if, Keeps-or_raise,
  Keeps-each, ◌>>=◌, ◌>>◌,
}
use daemon_supply_chain.Stock.{Inventory, Order, OrderItem, Allocation, Task, Db, Env}
use daemon_supply_chain.Stock.Queries.{
  given, has_inventory_id, has_allocation_id, is_task_id, insert_allocation, insert_task,
}
use daemon_supply_chain.Stock.Ledger.{Entry, at_id, move, IsSound, post-IsSound}
use daemon_supply_chain.Stock.Capacity.{lowered-IsRoomy}
use daemon_supply_chain.Stock.Sound.{IsSoundDb, publish-Keeps}
use daemon_supply_chain.Stock.PickingTasks.{create_picking_task, create_tasks}
use daemon_supply_chain.Stock.PickingCompleted.{
  take_out, picked_transaction, release_worker, move_stock, close_task, complete_picking,
}
use daemon_supply_chain.Stock.Allocate.{
  create_allocation, allocate_rows, allocate_item, allocate_order,
}

module _ (opening : List Entry) where
  pub release_worker-Keeps : (id : Option String) → Keeps (IsSoundDb opening) (release_worker id)
  release_worker-Keeps none = record { at = λ s p. p }
  release_worker-Keeps (some id) = record { at = λ s p. p }

  close_task-Keeps :
      (env : Env) (completed_at : ℕ) (task : Task)
      → Keeps (IsSoundDb opening) (close_task env completed_at task)
  unfolding close_task ◌>>◌
  close_task-Keeps env completed_at task =
      Keeps-bind _ _ _ (record { at = λ s p. p })
        λ u.
          Keeps-bind _ _ _ (record { at = λ s p. p })
            λ minutes. Keeps-bind _ _ _ (record { at = λ s p. p }) λ u'. release_worker-Keeps _

  move_stock_sound :
      (completed_at : ℕ) (task : Task) (a : Allocation) (row : Inventory) (s : Db)
      → IsSoundDb opening s
      → find (has_inventory_id a.inventory_id) s.inventory ≡ some row
      → ltb row.on_hand_quantity task.quantity ≡ false
      → ltb row.reserved_quantity task.quantity ≡ false
      → Holds (λ s x t. IsSoundDb opening t) s (move_stock completed_at task a row s)
  unfolding move_stock picked_transaction move ◌>>=◌ ◌>>◌
  move_stock_sound completed_at task a row s p found enough held =
      elim (Option-cases (given a.location_id)) [
        | inl nowhere ↦ rw nowhere (after, p.1)
        | inr (id, there) ↦ rw there (after, lowered-IsRoomy id task.quantity s.locations p.1)
      ]
    where
      after :
          IsSound opening
            (map (at_id a.inventory_id (take_out completed_at task.quantity row)) s.inventory)
            (s.transactions ++ picked_transaction task a.inventory_id ∷ [])
      after =
          post-IsSound opening s.inventory s.transactions p.0 row
            (take_out completed_at task.quantity row) (picked_transaction task a.inventory_id) found
            (λ r. refl) (λ h. ground arith) refl

  pub complete_picking-Keeps :
      (env : Env) (task : Task) → Keeps (IsSoundDb opening) (complete_picking env task)
  unfolding complete_picking ◌>>=◌ ◌>>◌
  complete_picking-Keeps env task = record { at = λ s p. by_case s p }
    where
      by_case :
          (s : Db)
          → IsSoundDb opening s
          → Holds (λ s x t. IsSoundDb opening t) s (complete_picking env task s)
      by_case s p =
          elim (Option-cases (find (has_allocation_id task.allocation_id) s.allocations)) [
            | inl missing ↦ rw missing tt
            | inr (a, allocated) ↦
                elim (Option-cases (find (has_inventory_id a.inventory_id) s.inventory)) [
                  | inl missing ↦ rw (allocated, missing) tt
                  | inr (row, found) ↦ elim (Bool-cases (ltb row.on_hand_quantity task.quantity)) [
                    | inl short ↦ rw (allocated, found, short) tt
                    | inr enough ↦ elim (Bool-cases (ltb row.reserved_quantity task.quantity)) [
                      | inl short ↦ rw (allocated, found, enough, short) tt
                      | inr held ↦
                          rw (allocated, found, enough, held)
                            (Keeps-continue (IsSoundDb opening) _ s _ _
                              (move_stock_sound _ task a row _ p found enough held)
                              λ u. Keeps-bind _ _ _ (close_task-Keeps env _ task) λ u'.
                                Keeps-bind _ _ _ (publish-Keeps opening env _ _ _ _ _)
                                  λ id. Keeps-pure _ _)
                    ]
                  ]
                ]
          ]

  insert_allocation-Keeps : (a : Allocation) → Keeps (IsSoundDb opening) (insert_allocation a)
  unfolding insert_allocation
  insert_allocation-Keeps a = record {
    at = λ s p. elim (Bool-cases (any (has_allocation_id a.allocation_id) s.allocations)) [
      | inl taken ↦ rw taken tt
      | inr free ↦ rw free p
    ];
  }

  insert_task-Keeps : (t : Task) → Keeps (IsSoundDb opening) (insert_task t)
  unfolding insert_task
  insert_task-Keeps t = record {
    at = λ s p. elim (Bool-cases (is_task_id t.task_id s)) [
      | inl taken ↦ rw taken tt
      | inr free ↦ rw free p
    ];
  }

  allocate_rows-Keeps :
      (env : Env) (order : Order) (product_id : String) (rows : List Inventory) (remaining_qty : ℕ)
      → Keeps (IsSoundDb opening) (allocate_rows env order product_id rows remaining_qty)
  unfolding allocate_rows create_allocation ◌>>◌
  allocate_rows-Keeps env order product_id [] remaining_qty = Keeps-pure _ _
  allocate_rows-Keeps env order product_id (row ∷ rows) remaining_qty =
      elim (Bool-cases (leb remaining_qty 0)) [
        | inl done ↦ rw done (Keeps-pure _ _)
        | inr more ↦ rw more (
            Keeps-bind _ _ _
              (Keeps-bind _ _ _ (record { at = λ s p. p })
                λ suffix. Keeps-bind _ _ _ (insert_allocation-Keeps _) λ u. Keeps-pure _ _)
              λ a.
                Keeps-bind _ _ _ (allocate_rows-Keeps env order product_id rows _)
                  λ rest. Keeps-pure _ _)
      ]

  allocate_item-Keeps :
      (env : Env) (order : Order) (i : OrderItem)
      → Keeps (IsSoundDb opening) (allocate_item env order i)
  unfolding allocate_item ◌>>◌
  allocate_item-Keeps env order i = Keeps-bind _ _ _ (Keeps-gets _ _) λ existing.
      Keeps-bind _ _ _ (Keeps-raise_if _ _ _) λ u. Keeps-bind _ _ _ (Keeps-gets _ _) λ rows.
        Keeps-bind _ _ _ (Keeps-raise_if _ _ _) λ u'.
          Keeps-bind _ _ _ (allocate_rows-Keeps env order i.product_id rows i.quantity)
            λ split. Keeps-bind _ _ _ (Keeps-raise_if _ _ _) λ u''. Keeps-pure _ _

  pub allocate_order-Keeps :
      (env : Env) (order_id : Option String)
      → Keeps (IsSoundDb opening) (allocate_order env order_id)
  unfolding allocate_order ◌>>◌
  allocate_order-Keeps env order_id = Keeps-bind _ _ _ (Keeps-gets _ _) λ found.
      Keeps-bind _ _ _ (Keeps-or_raise _ _ _) λ order. Keeps-bind _ _ _ (Keeps-gets _ _) λ items.
        Keeps-bind _ _ _ (Keeps-raise_if _ _ _) λ u.
          Keeps-bind _ _ _ (Keeps-each _ _ items (allocate_item-Keeps env order)) λ allocations.
            Keeps-bind _ _ _ (publish-Keeps opening env _ _ _ _ _) λ id. Keeps-pure _ _

  create_picking_task-Keeps :
      (env : Env) (head a : Allocation) → Keeps (IsSoundDb opening) (create_picking_task env head a)
  unfolding create_picking_task ◌>>◌
  create_picking_task-Keeps env head a =
      Keeps-bind _ _ _ (record { at = λ s p. p })
        λ suffix.
          Keeps-bind _ _ _ (record { at = λ s p. p })
            λ minutes. Keeps-bind _ _ _ (insert_task-Keeps _) λ u. Keeps-pure _ _

  pub create_tasks-Keeps :
      (env : Env) (order_id : Option String) → Keeps (IsSoundDb opening) (create_tasks env order_id)
  unfolding create_tasks ◌>>◌
  create_tasks-Keeps env order_id = Keeps-bind _ _ _ (Keeps-gets _ _) λ allocations.
      Keeps-bind _ _ _ (Keeps-or_raise _ _ _) λ head.
        Keeps-bind _ _ _ (Keeps-each _ _ allocations (create_picking_task-Keeps env head))
          λ tasks. Keeps-bind _ _ _ (publish-Keeps opening env _ _ _ _ _) λ id. Keeps-pure _ _
