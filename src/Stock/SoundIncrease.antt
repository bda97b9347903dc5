-- ===== src/Stock/SoundIncrease.antt =====
-- stock_increased.py keeps the rows in step with the transactions.
use daemon_supply_chain.Common.{
  ℕ, ◌+◌, String, ◌≡◌, refl, subst, inl, inr, leb, ltb, Bool-cases, Option, some, List, find,
  Option-cases,
}
use daemon_supply_chain.Common.Stateful.{
  Holds, Keeps, Keeps-bind, Keeps-continue, Keeps-pure, Keeps-or_raise, transaction-keeps, ◌>>=◌,
  ◌>>◌,
}
use daemon_supply_chain.Common.Keyed.{find_both}
use daemon_supply_chain.Stock.{Inventory, Db, Env}
use daemon_supply_chain.Stock.Queries.{has_inventory_id}
use daemon_supply_chain.Stock.Ledger.{Entry, by_id, move, post-IsSound}
use daemon_supply_chain.Stock.Sound.{IsSoundDb, publish-Keeps}
use daemon_supply_chain.Stock.StockIncreased.{
  generate_stock_increased, increase, increased_transaction, increase_row, make_available,
  find_received,
}

module _ (opening : List Entry) where
  increase_sound :
      (env : Env) (row : Inventory) (at : ℕ) (correlation_id : String) (s : Db) (x : Inventory)
      → IsSoundDb opening s
      → find (has_inventory_id row.inventory_id) s.inventory ≡ some x
      → Holds (λ s a t. IsSoundDb opening t) s (increase env row at correlation_id s)
  unfolding increase increased_transaction move ◌>>=◌ ◌>>◌
  increase_sound env row at correlation_id s x p found =
      Keeps-continue (IsSoundDb opening) _ s _ _
        ((publish-Keeps opening env _ _ _ _ _).at _ (
          post-IsSound opening s.inventory s.transactions p.0 x (make_available at)
              (increased_transaction env row correlation_id) found (λ r. refl) (λ h. h) refl,
          p.1,
        ))
        λ id. Keeps-pure _ _

  increase_row-Keeps : (env : Env) (id : ℕ) → Keeps (IsSoundDb opening) (increase_row env id)
  unfolding increase_row ◌>>=◌ ◌>>◌
  increase_row-Keeps env id = record { at = λ s p. by_row s p }
    where
      by_row :
          (s : Db)
          → IsSoundDb opening s
          → Holds (λ s a t. IsSoundDb opening t) s (increase_row env id s)
      by_row s p = elim (Option-cases (find_received id s)) [
        | inl missing ↦ rw missing tt
        | inr (row, found) ↦ elim (Bool-cases (leb row.on_hand_quantity 0)) [
          | inl short ↦ rw (found, short) tt
          | inr enough ↦
              elim (Bool-cases
                (ltb row.on_hand_quantity (row.reserved_quantity + row.damaged_quantity))) [
                  | inl short ↦ rw (found, enough, short) tt
                  | inr fits ↦
                      let both = find_both by_id id _ s.inventory row found in
                      rw (found, enough, fits)
                        (increase_sound env row _ _ s both.1 p (
                          subst (λ j. find (has_inventory_id j) s.inventory ≡ some both.1) both.0
                            both.2))
                ]
        ]
      ]

  pub increased_sound :
      (env : Env) (inventory_id : Option ℕ) (s : Db)
      → IsSoundDb opening s
      → IsSoundDb opening (generate_stock_increased env inventory_id s).1
  unfolding generate_stock_increased
  increased_sound env inventory_id s p =
      transaction-keeps (IsSoundDb opening) _
        (Keeps-bind _ _ _ (Keeps-or_raise _ _ _) λ id. increase_row-Keeps env id) s p
