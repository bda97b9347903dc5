-- ===== src/Stock/SoundPutaway.antt =====
-- A putaway keeps the rows and the transactions in agreement, and fills no location beyond its
-- capacity.
use daemon_supply_chain.Common.{
  sym, Result, ok, err, ℕ, ◌+◌, ◌<◌, String, ◌≡◌, refl, ap, ◌∙◌, map_option, inl, inr, arith,
  nat_eq, leb, subst, failure, Bool-cases, Option, none, some, List, [], ◌∷◌, ◌++◌, map, find,
  Option-cases,
}
use daemon_supply_chain.Common.Keyed.{at_key, has_key, find_both, find-map}
use daemon_supply_chain.Common.Stateful.{
  Stateful, Holds, Holds-mono, Holds-then_pure, Holds-continue, continue, Keeps, pure, raise_if,
  ◌>>=◌, ◌>>◌,
}
use daemon_supply_chain.Stock.{Inventory, Location, Db, Env}
use daemon_supply_chain.Stock.Queries.{given, has_inventory_id, publish}
use daemon_supply_chain.Stock.Ledger.{Entry, by_id, at_id, move, post-IsSound}
use daemon_supply_chain.Stock.Capacity.{
  Within-le, by_location, IsWithin, Within, lowered, lowered-IsRoomy, found-IsRoomy,
}
use daemon_supply_chain.Stock.Sound.{IsSoundDb}
use daemon_supply_chain.Stock.StockIncreased.{correlation_of}
use daemon_supply_chain.Stock.Putaway.{
  Place, choose_place, settle_place, release, putaway_transaction, put_at, fill, put_away,
  find_available_row, putaway_row,
}
use daemon_supply_chain.Stock.Places.{Fits, Chosen, choose_place-Does}

-- What a putaway of a row at a place writes.
pub record IsPutaway (env : Env) (id : ℕ) (s : Db) (p : Place) (t : Db) : Type 0 where
  pub row : Inventory
  pub found : find_available_row id s ≡ some row
  pub fits : Fits row.warehouse_id p s
  pub some_put : 0 < p.quantity
  pub stock :
      t.inventory ≡ map (at_id row.inventory_id (put_at env.now p.location.location_id)) s.inventory
  pub journal :
      t.transactions
      ≡ s.transactions
        ++ putaway_transaction env row p.quantity
            (correlation_of (given env.simulation_correlation_id) row)
          ∷ []

Within-lower :
    (id : String) (quantity added : ℕ) (l : Location)
    → Within (l.current_utilization + added) l.capacity_units
    → IsWithin (fill added (at_key by_location id (lowered quantity) l))
Within-lower id quantity added l h = elim (Bool-cases (has_key by_location id l)) [
  | inl same ↦ rw same (Within-le l.capacity_units _ _ (omega arith) h)
  | inr miss ↦ rw miss h
]

module _ (opening : List Entry) (env : Env) (row : Inventory) (p : Place)
    (correlation_id : String) where
  -- What is written from a state on, up to what it was before.
  abbrev Written : Db → Db → Type 0
  Written s t =
      IsSoundDb opening t
      × (t.inventory
          ≡ map (at_id row.inventory_id (put_at env.now p.location.location_id)) s.inventory)
      × (t.transactions
          ≡ s.transactions ++ putaway_transaction env row p.quantity correlation_id ∷ [])

  -- The writes, where the place still has room.
  put_away-Written :
      (s : Db) (x : Inventory) (l : Location)
      → IsSoundDb opening s
      → find (has_inventory_id row.inventory_id) s.inventory ≡ some x
      → find (has_key by_location p.location.location_id) s.locations ≡ some l
      → IsWithin (fill p.added l)
      → Holds (λ s u t. Written s t) s (put_away env row p correlation_id s)
  unfolding put_away putaway_transaction move publish ◌>>=◌ ◌>>◌
  put_away-Written s x l h found placed room =
      Holds-then_pure (λ s u t. Written s t) s _ _ tt
        (
          (
            post-IsSound opening s.inventory s.transactions h.0 x
                (put_at env.now p.location.location_id)
                (putaway_transaction env row p.quantity correlation_id) found (λ r. refl) (λ h. h)
                refl,
            found-IsRoomy p.location.location_id (fill p.added) s.locations l placed (λ l. refl)
                room h.1,
          ),
          refl,
          refl,
        )

  -- A putaway of nothing is refused.
  abbrev Put : Db → Unit {0} → Db → Type 0
  Put s u t = Written s t × (0 < p.quantity)

  abbrev checked_put_away : Stateful Db (Unit {0})
  checked_put_away =
      raise_if (leb p.quantity 0) (failure "Invalid available quantity")
      >> put_away env row p correlation_id

  checked_put_away-Put :
      (s : Db) (x : Inventory) (l : Location)
      → IsSoundDb opening s
      → find (has_inventory_id row.inventory_id) s.inventory ≡ some x
      → find (has_key by_location p.location.location_id) s.locations ≡ some l
      → IsWithin (fill p.added l)
      → Holds Put s (checked_put_away s)
  unfolding ◌>>=◌ ◌>>◌
  checked_put_away-Put s x l h found placed room = elim (Bool-cases (leb p.quantity 0)) [
    | inl nothing ↦ rw nothing tt
    | inr something ↦ rw something (
        Holds-mono (λ s u t. Written s t) Put s s _ (λ u t w. (w, ground arith))
          (put_away-Written s x l h found placed room))
  ]

  -- What the location of before gives up is given up first.
  release-Put :
      (s : Db) (x : Inventory) (from : Option String)
      → IsSoundDb opening s
      → find (has_inventory_id row.inventory_id) s.inventory ≡ some x
      → Fits row.warehouse_id p s
      → Holds Put s ((release from p.released >> checked_put_away) s)
  unfolding ◌>>=◌ ◌>>◌
  release-Put s x none h found fits = checked_put_away-Put s x p.location h found fits.0 fits.3
  release-Put s x (some id) h found fits = elim (Bool-cases (nat_eq p.released 0)) [
    | inl nothing ↦ rw nothing (checked_put_away-Put s x p.location h found fits.0 fits.3)
    | inr something ↦
        let s' : Db = record s {
          locations = map (at_key by_location id (lowered p.released)) s.locations;
        } in
        rw something (
          Holds-mono Put Put s' s _ (λ u t w. w)
            (checked_put_away-Put s' x (at_key by_location id (lowered p.released) p.location)
              (h.0, lowered-IsRoomy id p.released s.locations h.1) found
              (find-map by_location id (lowered p.released) (λ l. refl) p.location.location_id
                  s.locations
                ∙ ap (map_option (at_key by_location id (lowered p.released))) fits.0)
              (Within-lower id p.released p.added p.location fits.3)))
  ]

-- A putaway of a row.
module _ (opening : List Entry) (env : Env) (id : ℕ) where
  abbrev Puts : Db → Place → Db → Type 0
  Puts s p t = IsSoundDb opening s → IsSoundDb opening t × IsPutaway env id s p t

  module _ (row : Inventory) (s : Db) (x : Inventory) (h : IsSoundDb opening s)
      (found : find_available_row id s ≡ some row)
      (there : find (has_inventory_id row.inventory_id) s.inventory ≡ some x) where
    abbrev run : String
    run = correlation_of (given env.simulation_correlation_id) row

    settled :
        (p : Place)
        → Fits row.warehouse_id p s
        → Holds Puts s ((settle_place env row p run >> pure p) s)
    unfolding settle_place ◌>>=◌ ◌>>◌
    settled p fits =
        Holds-continue (Put opening env row p run) (λ u t q v. (q ≡ p) × (v ≡ t)) Puts s _ _ _
          (release-Put opening env row p run s x (given row.location_id) h there fits)
          (λ u. record { at = λ t. (refl, refl) })
          (λ u q v w e h.
            subst (λ q. IsSoundDb opening v × IsPutaway env id s q v) (sym e.0)
              (subst (λ v. IsSoundDb opening v × IsPutaway env id s p v) (sym e.1)
                (
                  w.0.0,
                  record {
                    row = row;
                    found = found;
                    fits = fits;
                    some_put = w.1;
                    stock = w.0.1;
                    journal = w.0.2;
                  },
                )))

    placed :
        (o : Result Place × Db)
        → Holds (Chosen row.warehouse_id) s o
        → Holds Puts s (continue (λ p. settle_place env row p run >> pure p) o.0 o.1)
    placed (ok p, t) c =
        subst (λ t. Holds Puts s ((settle_place env row p run >> pure p) t)) (sym c.0)
          (settled p (c.1 h.1))
    placed (err e, t) c = tt

  putaway_row-Puts : (s : Db) → IsSoundDb opening s → Holds Puts s (putaway_row env id s)
  unfolding putaway_row ◌>>=◌
  putaway_row-Puts s h = elim (Option-cases (find_available_row id s)) [
    | inl missing ↦ rw missing tt
    | inr (row, found) ↦
        let both = find_both by_id id _ s.inventory row found in
        rw found (
          placed row s both.1 h found
            (subst (λ j. find (has_inventory_id j) s.inventory ≡ some both.1) both.0 both.2)
            (choose_place env row (given row.location_id) s)
            ((choose_place-Does env row (given row.location_id)).at s))
  ]

  pub putaway_row-Keeps : Keeps (IsSoundDb opening) (putaway_row env id)
  putaway_row-Keeps = record {
    at = λ s h.
        Holds-mono Puts (λ s p t. IsSoundDb opening t) s s _ (λ p t f. (f h).0)
          (putaway_row-Puts s h);
  }
