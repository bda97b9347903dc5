-- ===== src/Stock/SoundArrived.antt =====
-- The arrival of a shipment, and the creation of a receiving task for it, touch neither rows,
-- transactions nor locations.
use daemon_supply_chain.Common.{String, inl, inr, ◌==◌, Bool-cases, List}
use daemon_supply_chain.Common.Stateful.{
  Keeps, Keeps-bind, Keeps-pure, Keeps-gets, Keeps-raise_if, Keeps-or_raise, ◌>>◌,
}
use daemon_supply_chain.Stock.{ReceivingTask, Env}
use daemon_supply_chain.Stock.Ledger.{Entry}
use daemon_supply_chain.Stock.Sound.{IsSoundDb, publish-Keeps}
use daemon_supply_chain.Stock.SoundReceiving.{insert_receiving_task-Keeps}
use daemon_supply_chain.Stock.Arrived.{
  track_arrival, arrive, correlation_or_fresh, write_arrived, assign_receiving, create_for_arrived,
}

module _ (opening : List Entry) where
  pub arrive-Keeps : (env : Env) → Keeps (IsSoundDb opening) (arrive env)
  unfolding arrive track_arrival ◌>>◌
  arrive-Keeps env = Keeps-bind _ _ _ (Keeps-gets _ _) λ found.
      Keeps-bind _ _ _ (Keeps-or_raise _ _ _) λ row.
        Keeps-bind _ _ _ (record { at = λ s p. p })
          λ a.
            Keeps-bind _ _ _ (record { at = λ s p. p })
              λ b. Keeps-bind _ _ _ (publish-Keeps opening env _ _ _ _ _) λ id. Keeps-pure _ _

  write_arrived-Keeps :
      (env : Env) (t : ReceivingTask) (worker_id : String)
      → Keeps (IsSoundDb opening) (write_arrived env t worker_id)
  unfolding write_arrived ◌>>◌
  write_arrived-Keeps env t worker_id =
      Keeps-bind _ _ _ (insert_receiving_task-Keeps opening t) λ a.
        Keeps-bind _ _ _ (record { at = λ s p. p })
          λ b. Keeps-bind _ _ _ (publish-Keeps opening env _ _ _ _ _) λ id. Keeps-pure _ _

  correlation_or_fresh-Keeps :
      (env : Env) (correlation_id : String)
      → Keeps (IsSoundDb opening) (correlation_or_fresh env correlation_id)
  correlation_or_fresh-Keeps env correlation_id = elim (Bool-cases (correlation_id == "")) [
    | inl fresh ↦ rw fresh (record { at = λ s p. p })
    | inr given ↦ rw given (record { at = λ s p. p })
  ]

  pub create_for_arrived-Keeps :
      (env : Env) (shipment_id : String)
      → Keeps (IsSoundDb opening) (create_for_arrived env shipment_id)
  unfolding create_for_arrived assign_receiving ◌>>◌
  create_for_arrived-Keeps env shipment_id = Keeps-bind _ _ _ (Keeps-gets _ _) λ found.
      Keeps-bind _ _ _ (Keeps-or_raise _ _ _) λ x. Keeps-bind _ _ _ (Keeps-gets _ _) λ existing.
        Keeps-bind _ _ _ (Keeps-raise_if _ _ _) λ a. Keeps-bind _ _ _ (Keeps-gets _ _) λ quantity.
          Keeps-bind _ _ _ (Keeps-raise_if _ _ _) λ b. Keeps-bind _ _ _ (Keeps-gets _ _) λ workers.
            Keeps-bind _ _ _ (record { at = λ s p. p })
              λ n. Keeps-bind _ _ _ (Keeps-or_raise _ _ _) λ worker.
                Keeps-bind _ _ _ (record { at = λ s p. p })
                  λ task_id.
                    Keeps-bind _ _ _ (correlation_or_fresh-Keeps env _)
                      λ correlation_id. write_arrived-Keeps env _ _
