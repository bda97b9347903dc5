-- ===== src/Stock/SoundPacking.antt =====
-- The generators of packing keep the rows and the transactions in agreement.
use daemon_supply_chain.Common.{
  String, inl, inr, Bool, true, false, ◌==◌, Bool-cases, any, Option, none, some, List,
}
use daemon_supply_chain.Common.Stateful.{
  Keeps, Keeps-bind, Keeps-pure, Keeps-gets, Keeps-raise_if, Keeps-or_raise, ◌>>◌,
}
use daemon_supply_chain.Stock.{Task, PackingTask, Package, Env}
use daemon_supply_chain.Stock.Queries.{is_task_id, insert_packing_task, insert_package}
use daemon_supply_chain.Stock.Ledger.{Entry}
use daemon_supply_chain.Stock.Sound.{IsSoundDb, publish-Keeps}
use daemon_supply_chain.Stock.PackingTasks.{write_packing_task, existing_or_new, create_packing}
use daemon_supply_chain.Stock.PackingCompleted.{
  Packing, write_packing, pack, pack_once, complete_packable,
}

module _ (opening : List Entry) where
  insert_packing_task-Keeps : (t : PackingTask) → Keeps (IsSoundDb opening) (insert_packing_task t)
  unfolding insert_packing_task
  insert_packing_task-Keeps t = record {
    at = λ s p. elim (Bool-cases (is_task_id t.task_id s)) [
      | inl taken ↦ rw taken tt
      | inr free ↦ rw free p
    ];
  }

  insert_package-Keeps : (row : Package) → Keeps (IsSoundDb opening) (insert_package row)
  unfolding insert_package
  insert_package-Keeps row = record {
    at = λ s p.
        elim (Bool-cases (any (λ (old : Package). old.package_id == row.package_id) s.packages)) [
          | inl taken ↦ rw taken tt
          | inr free ↦ rw free p
        ];
  }

  existing_or_new-Keeps :
      (env : Env) (head : Task) (tasks : List Task) (existing : Option PackingTask)
      → Keeps (IsSoundDb opening) (existing_or_new env head tasks existing)
  unfolding existing_or_new write_packing_task ◌>>◌
  existing_or_new-Keeps env head tasks (some existing) = Keeps-pure _ _
  existing_or_new-Keeps env head tasks none =
      Keeps-bind _ _ _ (record { at = λ s p. p })
        λ minutes.
          Keeps-bind _ _ _ (record { at = λ s p. p })
            λ suffix. Keeps-bind _ _ _ (insert_packing_task-Keeps _) λ u.
              Keeps-bind _ _ _ (record { at = λ s p. p })
                λ u'. Keeps-bind _ _ _ (publish-Keeps opening env _ _ _ _ _) λ id. Keeps-pure _ _

  pub create_packing-Keeps :
      (env : Env) (order_id : Option String)
      → Keeps (IsSoundDb opening) (create_packing env order_id)
  unfolding create_packing ◌>>◌
  create_packing-Keeps env order_id = Keeps-bind _ _ _ (Keeps-gets _ _) λ tasks.
      Keeps-bind _ _ _ (Keeps-or_raise _ _ _) λ head. Keeps-bind _ _ _ (Keeps-gets _ _) λ pending.
        Keeps-bind _ _ _ (Keeps-raise_if _ _ _) λ u.
          Keeps-bind _ _ _ (Keeps-gets _ _)
            λ existing. existing_or_new-Keeps env head tasks existing

  write_packing-Keeps :
      (env : Env) (task : PackingTask) (p : Packing)
      → Keeps (IsSoundDb opening) (write_packing env task p)
  unfolding write_packing ◌>>◌
  write_packing-Keeps env task p =
      Keeps-bind _ _ _ (record { at = λ s p. p })
        λ a.
          Keeps-bind _ _ _ (record { at = λ s p. p })
            λ b.
              Keeps-bind _ _ _ (record { at = λ s p. p })
                λ c.
                  Keeps-bind _ _ _ (record { at = λ s p. p })
                    λ d. Keeps-bind _ _ _ (publish-Keeps opening env _ _ _ _ _) λ id. Keeps-pure _ _

  pack_once-Keeps :
      (env : Env) (task : PackingTask) (already : Bool)
      → Keeps (IsSoundDb opening) (pack_once env task already)
  unfolding pack_once pack ◌>>◌
  pack_once-Keeps env task true =
      Keeps-bind _ _ _ (Keeps-gets _ _)
        λ found. Keeps-bind _ _ _ (Keeps-or_raise _ _ _) λ parcel. Keeps-pure _ _
  pack_once-Keeps env task false = Keeps-bind _ _ _ (Keeps-gets _ _) λ found.
      Keeps-bind _ _ _ (Keeps-or_raise _ _ _) λ worker.
        Keeps-bind _ _ _ (record { at = λ s p. p })
          λ duration.
            Keeps-bind _ _ _ (record { at = λ s p. p })
              λ suffix.
                Keeps-bind _ _ _ (record { at = λ s p. p })
                  λ weight.
                    Keeps-bind _ _ _ (insert_package-Keeps _) λ u. write_packing-Keeps env task _

  pub complete_packable-Keeps :
      (env : Env) (task_id : Option String)
      → Keeps (IsSoundDb opening) (complete_packable env task_id)
  unfolding complete_packable
  complete_packable-Keeps env task_id =
      Keeps-bind _ _ _ (Keeps-gets _ _)
        λ found. Keeps-bind _ _ _ (Keeps-or_raise _ _ _) λ task. pack_once-Keeps env task _
