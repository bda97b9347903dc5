-- ===== src/Stock/Again.antt =====
-- inventory_reserved.py: the allocations of an order are reserved once.
use daemon_supply_chain.Common.{
  String, ◌≡◌, refl, ap, subst, ◌∙◌, inl, inr, arith, eq_refl, ◌==◌, Bool, true, false, ◌&&◌,
  Bool-cases, some, List, [], ◌∷◌, map, any, filter, All, failure, ok, err,
}
use daemon_supply_chain.Common.Stateful.{Holds, transaction, ◌>>=◌, ◌>>◌}
use daemon_supply_chain.Common.Sorting.{sort_by, IsIn, IsIn-itself, any-sort_by, any-filter}
use daemon_supply_chain.Stock.{Allocation, Db, Env}
use daemon_supply_chain.Stock.Queries.{given, has_allocation_id}
use daemon_supply_chain.Stock.Reserve.{
  is_allocated, find_allocated, reserve_order, generate_inventory_reserved,
}
use daemon_supply_chain.Stock.Rounds.{mark_reserved}
use daemon_supply_chain.Stock.Reserved.{IsReservation, generate_inventory_reserved-IsReservation}

abbrev of_order : String → Allocation → Bool
of_order order_id a = a.order_id == order_id && is_allocated a

module _ (env : Env) (order_id : String) (s : Db) where
  abbrev listed : List Allocation
  listed = find_allocated env (some order_id) s

  marked :
      (a : Allocation) → IsIn s.allocations a → of_order order_id (mark_reserved listed a) ≡ false
  unfolding find_allocated
  marked a i = elim (Bool-cases (any (λ x. has_allocation_id x.allocation_id a) listed)) [
    | inl hit ↦ rw hit (ground arith)
    | inr miss ↦ elim (Bool-cases (of_order order_id a)) [
      | inr other ↦ rw miss other
      | inl mine ↦
          let hit : any (λ x. has_allocation_id x.allocation_id a) listed ≡ true =
            any-sort_by _ _ (filter (of_order order_id) s.allocations)
            ∙ any-filter (of_order order_id) (λ x. has_allocation_id x.allocation_id a) a
                s.allocations i mine (eq_refl a.allocation_id) in
          cc
    ]
  ]

  none_left :
      (xs : List Allocation)
      → All (IsIn s.allocations) xs
      → filter (of_order order_id) (map (mark_reserved listed) xs) ≡ []
  none_left [] h = refl
  none_left (a ∷ rest) h = rw (marked a h.0) (none_left rest h.1)

  emptied :
      (t : Db) (r : String × List Allocation)
      → IsReservation env (some order_id) s r t
      → find_allocated env (some order_id) t ≡ []
  unfolding find_allocated
  emptied t r h =
      ap
        (λ l.
          sort_by (λ a b. env.collate a.allocation_id b.allocation_id)
            (filter (of_order order_id) l))
        h.reserves.marked
      ∙ ap (sort_by (λ a b. env.collate a.allocation_id b.allocation_id))
          (none_left s.allocations (IsIn-itself s.allocations))

reserve_order_empty :
    (env : Env) (order_id : String) (t : Db)
    → find_allocated env (some order_id) t ≡ []
    → transaction (reserve_order env (some order_id)) t
      ≡ (err (failure "No ALLOCATED inventory found"), t)
unfolding reserve_order transaction ◌>>=◌ ◌>>◌
reserve_order_empty env order_id t h = rw h refl

-- After the stock of a named order was reserved, a second reservation of the order raises and
-- changes nothing.
pub generate_inventory_reserved_twice :
    (env : Env) (order_id : String) (s t : Db) (r : String × List Allocation)
    → (order_id == "") ≡ false
    → generate_inventory_reserved env (some order_id) s ≡ (ok r, t)
    → generate_inventory_reserved env (some order_id) t
      ≡ (err (failure "No ALLOCATED inventory found"), t)
unfolding generate_inventory_reserved
generate_inventory_reserved_twice env order_id s t r named h =
    let run : Holds (IsReservation env (given (some order_id))) s (ok r, t) =
      subst (Holds (IsReservation env (given (some order_id))) s) h
        ((generate_inventory_reserved-IsReservation env (some order_id)).at s) in
    let done : IsReservation env (some order_id) s r t = rw named at run in
    rw named (reserve_order_empty env order_id t (emptied env order_id s t r done))
