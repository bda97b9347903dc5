-- ===== src/Stock/Duplicates.antt =====
-- receiving_task_created.py: a shipment that has arrived gets one task.
use daemon_supply_chain.Common.{
  ℕ, ◌-◌, ◌≤◌, String, ◌≡◌, refl, subst, inl, inr, arith, ◌==◌, eq_refl, leb, Bool, true, false,
  Bool-cases, some, Option-cases, ◌∙◌, List, [], ◌∷◌, ◌++◌, length, any, Result, ok, err, failure,
}
use daemon_supply_chain.Common.Keyed.{find-passes}
use daemon_supply_chain.Common.Stateful.{
  Holds, Holds-mono, Holds-then_pure, Does, Does-transaction, transaction, ◌>>=◌, ◌>>◌,
}
use daemon_supply_chain.Stock.{Shipment, ReceivingTask, Db, Env}
use daemon_supply_chain.Stock.Queries.{one_of, is_task_id, insert_receiving_task, publish}
use daemon_supply_chain.Stock.Capacity.{same_text}
use daemon_supply_chain.Stock.Counts.{count_workers}
use daemon_supply_chain.Stock.Arrived.{
  find_arrived, has_receiving_task, total_shipped, arrived_row, write_arrived, assign_receiving,
  create_for_arrived, generate_receiving_task_created_for,
}

-- What is added for a shipment.
pub record IsAdded (x : Shipment) (quantity : ℕ) (s : Db) (id : String) (u : Db) : Type 0 where
  pub task : ReceivingTask
  pub added : u.receiving_tasks ≡ s.receiving_tasks ++ task ∷ []
  pub named : task.task_id ≡ id
  pub of_shipment : task.shipment_id ≡ x.shipment_id
  pub expects : task.expected_quantity ≡ quantity
  pub shipments : u.shipments ≡ s.shipments

module _ (env : Env) (x : Shipment) (quantity : ℕ) where
  write_arrived-IsAdded :
      (t : ReceivingTask) (worker_id : String)
      → t.shipment_id ≡ x.shipment_id
      → t.expected_quantity ≡ quantity
      → Does (IsAdded x quantity) (write_arrived env t worker_id)
  unfolding write_arrived insert_receiving_task publish ◌>>=◌ ◌>>◌
  write_arrived-IsAdded t worker_id of_shipment expects = record {
    at = λ s. elim (Bool-cases (is_task_id t.task_id s)) [
      | inl taken ↦ rw taken tt
      | inr free ↦ rw free (
          Holds-then_pure (IsAdded x quantity) s _ _ t.task_id (record {
            task = t;
            added = refl;
            named = refl;
            of_shipment = of_shipment;
            expects = expects;
            shipments = refl;
          }))
    ];
  }

  -- The draws change no table.
  drawn-IsAdded :
      (s s' : Db) (o : Result String × Db)
      → s'.receiving_tasks ≡ s.receiving_tasks
      → s'.shipments ≡ s.shipments
      → Holds (IsAdded x quantity) s' o
      → Holds (IsAdded x quantity) s o
  drawn-IsAdded s s' o tasks shipments =
      Holds-mono (IsAdded x quantity) (IsAdded x quantity) s' s o λ id u h. record {
        task = h.task;
        added = subst (λ ts. u.receiving_tasks ≡ ts ++ h.task ∷ []) tasks h.added;
        named = h.named;
        of_shipment = h.of_shipment;
        expects = h.expects;
        shipments = subst (λ xs. u.shipments ≡ xs) shipments h.shipments;
      }

  assign_receiving-IsAdded : Does (IsAdded x quantity) (assign_receiving env x quantity)
  unfolding assign_receiving arrived_row ◌>>=◌ ◌>>◌
  assign_receiving-IsAdded = record {
    at = λ s.
        elim (Option-cases (
          one_of (env.randint s.drawn 0 (length (count_workers x.warehouse_id s) - 1))
            (count_workers x.warehouse_id s))) [
              | inl nobody ↦ rw nobody tt
              | inr (worker, chosen) ↦ elim (Bool-cases (x.correlation_id == "")) [
                | inl fresh ↦
                    rw (chosen, fresh)
                      (drawn-IsAdded s _ _ refl refl
                        ((write_arrived-IsAdded _ worker.worker_id refl refl).at _))
                | inr given ↦
                    rw (chosen, given)
                      (drawn-IsAdded s _ _ refl refl
                        ((write_arrived-IsAdded _ worker.worker_id refl refl).at _))
              ]
            ];
  }

-- What the creation of a task for a shipment found and added.
pub record IsOnlyTask (shipment_id : String) (s : Db) (id : String) (u : Db) : Type 0 where
  pub shipment : Shipment
  pub found : find_arrived shipment_id s ≡ some shipment
  pub none_before : has_receiving_task shipment_id s ≡ false
  pub not_empty : 1 ≤ total_shipped shipment_id s
  pub addition : IsAdded shipment (total_shipped shipment_id s) s id u

create_for_arrived-IsOnlyTask :
    (env : Env) (shipment_id : String)
    → Does (IsOnlyTask shipment_id) (create_for_arrived env shipment_id)
unfolding create_for_arrived ◌>>=◌ ◌>>◌
create_for_arrived-IsOnlyTask env shipment_id = record {
  at = λ s. elim (Option-cases (find_arrived shipment_id s)) [
    | inl nothing ↦ rw nothing tt
    | inr (x, found) ↦ elim (Bool-cases (has_receiving_task shipment_id s)) [
      | inl taken ↦ rw (found, taken) tt
      | inr free ↦ elim (Bool-cases (leb (total_shipped shipment_id s) 0)) [
        | inl empty ↦ rw (found, free, empty) tt
        | inr full ↦
            rw (found, free, full)
              (Holds-mono (IsAdded x (total_shipped shipment_id s)) (IsOnlyTask shipment_id) s s _
                (λ id u added. record {
                  shipment = x;
                  found = found;
                  none_before = free;
                  not_empty = ground arith;
                  addition = added;
                })
                ((assign_receiving-IsAdded env x (total_shipped shipment_id s)).at s))
      ]
    ]
  ];
}

generate_receiving_task_created_for-IsOnlyTask :
    (env : Env) (shipment_id : String)
    → Does (IsOnlyTask shipment_id) (generate_receiving_task_created_for env shipment_id)
unfolding generate_receiving_task_created_for
generate_receiving_task_created_for-IsOnlyTask env shipment_id =
    Does-transaction _ _ (create_for_arrived-IsOnlyTask env shipment_id)

any-snoc :
    {A : Type 0} (q : A → Bool) (xs : List A) (x : A) → q x ≡ true → any q (xs ++ x ∷ []) ≡ true
any-snoc q [] x h = ground arith
any-snoc q (y ∷ xs) x h = ground (arith, any-snoc q xs x h)

-- After a receiving task was created for a shipment that had arrived, which had no receiving task
-- before, a second call for the shipment raises that the task exists and changes nothing.
pub generate_receiving_task_created_for_twice :
    (env later : Env) (shipment_id id : String) (s u : Db)
    → generate_receiving_task_created_for env shipment_id s ≡ (ok id, u)
    → (generate_receiving_task_created_for later shipment_id u
        ≡ (err (failure "Receiving task already exists"), u))
      × (has_receiving_task shipment_id s ≡ false)
unfolding generate_receiving_task_created_for create_for_arrived transaction ◌>>=◌ ◌>>◌
generate_receiving_task_created_for_twice env later shipment_id id s u returned =
    let h : IsOnlyTask shipment_id s id u =
      subst (Holds (IsOnlyTask shipment_id) s) returned
        ((generate_receiving_task_created_for-IsOnlyTask env shipment_id).at s) in
    let of_shipment : h.addition.task.shipment_id ≡ shipment_id =
      h.addition.of_shipment
      ∙ same_text _ _ (ground (arith, find-passes _ s.shipments h.shipment h.found)) in
    let there : has_receiving_task shipment_id u ≡ true = rw h.addition.added (
      any-snoc (λ t. t.shipment_id == shipment_id) s.receiving_tasks h.addition.task
        (rw of_shipment (eq_refl shipment_id))) in
    let still : find_arrived shipment_id u ≡ some h.shipment = rw h.addition.shipments h.found in
    (rw (still, there) refl, h.none_before)
