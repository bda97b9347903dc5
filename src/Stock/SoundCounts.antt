-- ===== src/Stock/SoundCounts.antt =====
-- The generators of cycle counts, and the start of a task of any type, touch neither rows, transactions
-- nor locations.
use daemon_supply_chain.Common.{ℕ, String, inl, inr, Bool-cases, Option, none, some, List}
use daemon_supply_chain.Common.Stateful.{
  Keeps, Keeps-bind, Keeps-pure, Keeps-gets, Keeps-raise_if, Keeps-or_raise, ◌>>◌,
}
use daemon_supply_chain.Stock.{Inventory, CountTask, Env}
use daemon_supply_chain.Stock.Queries.{is_task_id, insert_count_task}
use daemon_supply_chain.Stock.Ledger.{Entry}
use daemon_supply_chain.Stock.Sound.{IsSoundDb, publish-Keeps}
use daemon_supply_chain.Stock.Counts.{write_count, count_at, create_count}
use daemon_supply_chain.Stock.TaskStarted.{
  AnyTask, start_any_task, start_any, start_with_worker, start_next,
}
use daemon_supply_chain.Stock.CountsCompleted.{free_worker, write_completed, complete_started_count}

module _ (opening : List Entry) where
  insert_count_task-Keeps : (t : CountTask) → Keeps (IsSoundDb opening) (insert_count_task t)
  unfolding insert_count_task
  insert_count_task-Keeps t = record {
    at = λ s p. elim (Bool-cases (is_task_id t.task_id s)) [
      | inl taken ↦ rw taken tt
      | inr free ↦ rw free p
    ];
  }

  write_count-Keeps :
      (env : Env) (row : Inventory) (t : CountTask) (worker_id : String)
      → Keeps (IsSoundDb opening) (write_count env row t worker_id)
  unfolding write_count ◌>>◌
  write_count-Keeps env row t worker_id = Keeps-bind _ _ _ (insert_count_task-Keeps t) λ a.
      Keeps-bind _ _ _ (record { at = λ s p. p })
        λ b. Keeps-bind _ _ _ (publish-Keeps opening env _ _ _ _ _) λ id. Keeps-pure _ _

  count_at-Keeps :
      (env : Env) (row : Inventory) (location_id : String)
      → Keeps (IsSoundDb opening) (count_at env row location_id)
  unfolding count_at ◌>>◌
  count_at-Keeps env row location_id = Keeps-bind _ _ _ (Keeps-gets _ _) λ counted.
      Keeps-bind _ _ _ (Keeps-raise_if _ _ _) λ a. Keeps-bind _ _ _ (Keeps-gets _ _) λ workers.
        Keeps-bind _ _ _ (record { at = λ s p. p })
          λ n. Keeps-bind _ _ _ (Keeps-or_raise _ _ _) λ worker.
            Keeps-bind _ _ _ (record { at = λ s p. p })
              λ task_id.
                Keeps-bind _ _ _ (record { at = λ s p. p })
                  λ correlation_id.
                    Keeps-bind _ _ _ (record { at = λ s p. p })
                      λ minutes. write_count-Keeps env row _ _

  pub create_count-Keeps : (env : Env) → Keeps (IsSoundDb opening) (create_count env)
  unfolding create_count
  create_count-Keeps env =
      Keeps-bind _ _ _ (Keeps-gets _ _)
        λ found. Keeps-bind _ _ _ (Keeps-or_raise _ _ _) λ placed. count_at-Keeps env _ _

  start_with_worker-Keeps :
      (env : Env) (t : AnyTask) → Keeps (IsSoundDb opening) (start_with_worker env t)
  unfolding start_with_worker start_any start_any_task ◌>>◌
  start_with_worker-Keeps env t = Keeps-bind _ _ _ (Keeps-gets _ _) λ found.
      Keeps-bind _ _ _ (Keeps-or_raise _ _ _) λ worker. Keeps-bind _ _ _ (Keeps-raise_if _ _ _) λ a.
        Keeps-bind _ _ _ (record { at = λ s p. p })
          λ b.
            Keeps-bind _ _ _ (record { at = λ s p. p })
              λ c. Keeps-bind _ _ _ (publish-Keeps opening env _ _ _ _ _) λ id. Keeps-pure _ _

  pub start_next-Keeps : (env : Env) → Keeps (IsSoundDb opening) (start_next env)
  unfolding start_next
  start_next-Keeps env =
      Keeps-bind _ _ _ (Keeps-gets _ _)
        λ found. Keeps-bind _ _ _ (Keeps-or_raise _ _ _) λ t. start_with_worker-Keeps env t

  free_worker-Keeps : (id : Option String) → Keeps (IsSoundDb opening) (free_worker id)
  free_worker-Keeps none = record { at = λ s p. p }
  free_worker-Keeps (some id) = record { at = λ s p. p }

  write_completed-Keeps :
      (env : Env) (t : CountTask) (expected actual : ℕ)
      → Keeps (IsSoundDb opening) (write_completed env t expected actual)
  unfolding write_completed ◌>>◌
  write_completed-Keeps env t expected actual =
      Keeps-bind _ _ _ (record { at = λ s p. p })
        λ minutes.
          Keeps-bind _ _ _ (record { at = λ s p. p })
            λ a. Keeps-bind _ _ _ (free_worker-Keeps _) λ b.
              Keeps-bind _ _ _ (record { at = λ s p. p })
                λ drawn.
                  Keeps-bind _ _ _ (record { at = λ s p. p })
                    λ c. Keeps-bind _ _ _ (publish-Keeps opening env _ _ _ _ _) λ id. Keeps-pure _ _

  pub complete_started_count-Keeps :
      (env : Env) → Keeps (IsSoundDb opening) (complete_started_count env)
  unfolding complete_started_count
  complete_started_count-Keeps env = Keeps-bind _ _ _ (Keeps-gets _ _) λ found.
      Keeps-bind _ _ _ (Keeps-or_raise _ _ _) λ t. Keeps-bind _ _ _ (Keeps-gets _ _) λ stocked.
        Keeps-bind _ _ _ (Keeps-or_raise _ _ _) λ row.
          Keeps-bind _ _ _ (record { at = λ s p. p }) λ variance. write_completed-Keeps env t _ _
