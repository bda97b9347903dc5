-- ===== src/Stock/Sound.antt =====
-- The generators of stock keep the rows and the transactions in agreement.
use Prim.Native.String.{◌++◌ as text_append}
use daemon_supply_chain.Common.{
  String, ◌≡◌, refl, inl, inr, arith, ◌==◌, Bool, false, Bool-cases, Option, some, List, any, find,
  Option-cases, Result, ok, err,
}
use daemon_supply_chain.Common.Stateful.{
  Holds, Keeps, Keeps-bind, Keeps-pure, Keeps-gets, Keeps-or_raise, Keeps-each, ◌>>=◌, ◌>>◌,
}
use daemon_supply_chain.Values.{Fields}
use daemon_supply_chain.Stock.{Inventory, Allocation, Db, Env, is_short}
use daemon_supply_chain.Stock.Queries.{has_inventory_id, insert_reservation, publish}
use daemon_supply_chain.Stock.Ledger.{Entry, move, IsSound, post-IsSound}
use daemon_supply_chain.Stock.Capacity.{IsRoomy}
use daemon_supply_chain.Stock.Reserve.{
  hold, reservation_row, reserved_transaction, write_reservation, reserve_allocation, reserve_order,
}

-- The agreement, and the capacity of the locations, of a database.
abbrev pub IsSoundDb : List Entry → Db → Type 0
IsSoundDb opening s = IsSound opening s.inventory s.transactions × IsRoomy s.locations

-- Where code returns, it leaves the state as it stands there.
pub Holds-pair :
    {A : Type 0} (P : Db → Type 0) (r : Result A) (s t : Db) → P t → Holds (λ s a t. P t) s (r, t)
Holds-pair P (ok a) s t p = p
Holds-pair P (err e) s t p = tt

module _ (opening : List Entry) where
  pub publish-Keeps :
      (env : Env) (event_type aggregate_type aggregate_id correlation_id : String)
      (payload : Fields)
      → Keeps
          (IsSoundDb opening)
          (publish env event_type aggregate_type aggregate_id correlation_id payload)
  unfolding publish
  publish-Keeps env event_type aggregate_type aggregate_id correlation_id payload = record {
    at = λ s p. Holds-pair (IsSoundDb opening) _ s _ p;
  }

  module _ (env : Env) (order_id correlation_id : String) (a : Allocation) where
    abbrev is_taken : Db → Bool
    is_taken s =
        any (λ old. old.reservation_id == text_append "RESV-" (env.fresh s.drawn)) s.reservations

    write_reservation_sound :
        (s : Db) (row : Inventory)
        → IsSoundDb opening s
        → find (has_inventory_id a.inventory_id) s.inventory ≡ some row
        → is_short a.allocated_quantity row ≡ false
        → Holds (λ s x t. IsSoundDb opening t) s (write_reservation env order_id correlation_id a s)
    unfolding write_reservation insert_reservation reservation_row reserved_transaction move ◌>>=◌
        ◌>>◌
    write_reservation_sound s row p found enough = elim (Bool-cases (is_taken s)) [
      | inl taken ↦ rw taken tt
      | inr free ↦ rw free (
          (
            post-IsSound opening s.inventory s.transactions p.0 row (hold env a.allocated_quantity)
                (reserved_transaction order_id correlation_id a) found (λ r. refl)
                (λ h. ground arith) refl,
            p.1,
          ))
    ]

    reserve_allocation-Keeps :
        Keeps (IsSoundDb opening) (reserve_allocation env order_id correlation_id a)
    unfolding reserve_allocation ◌>>=◌ ◌>>◌
    reserve_allocation-Keeps = record { at = λ s p. by_row s p }
      where
        by_row :
            (s : Db)
            → IsSoundDb opening s
            → Holds
                (λ s x t. IsSoundDb opening t)
                s
                (reserve_allocation env order_id correlation_id a s)
        by_row s p = elim (Option-cases (find (has_inventory_id a.inventory_id) s.inventory)) [
          | inl missing ↦ rw missing tt
          | inr (row, found) ↦ elim (Bool-cases (is_short a.allocated_quantity row)) [
            | inl short ↦ rw (found, short) tt
            | inr enough ↦ rw (found, enough) (write_reservation_sound s row p found enough)
          ]
        ]

  pub reserve_order-Keeps :
      (env : Env) (order_id : Option String)
      → Keeps (IsSoundDb opening) (reserve_order env order_id)
  unfolding reserve_order ◌>>◌
  reserve_order-Keeps env order_id = Keeps-bind _ _ _ (Keeps-gets _ _) λ allocations.
      Keeps-bind _ _ _ (Keeps-or_raise _ _ _) λ head.
        Keeps-bind _ _ _
          (Keeps-each _ _ allocations
            (reserve_allocation-Keeps env head.order_id head.correlation_id))
          λ items. Keeps-bind _ _ _ (publish-Keeps env _ _ _ _ _) λ id. Keeps-pure _ _
