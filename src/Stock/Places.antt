-- ===== src/Stock/Places.antt =====
-- The place that a putaway chooses: an active location of the warehouse with room.
use daemon_supply_chain.Common.{
  ℕ, ◌+◌, ◌-◌, String, ◌≡◌, refl, inl, inr, arith, ◌==◌, leb, ◌&&◌, true, ◌⊎◌, subst, Bool-cases,
  Option, none, some, find, Option-cases,
}
use daemon_supply_chain.Common.Keyed.{Keyed-KeyedIn, has_key, find-All, find-passes}
use daemon_supply_chain.Common.Sorting.{All-sort_by, All-filter_passes}
use daemon_supply_chain.Common.Stateful.{Holds, Holds-mono, Does, Does-bind, ◌>>=◌, ◌>>◌}
use daemon_supply_chain.Stock.{Inventory, Location, Db, Env, available}
use daemon_supply_chain.Stock.Chosen.{first-All}
use daemon_supply_chain.Stock.Queries.{given}
use daemon_supply_chain.Stock.Capacity.{by_location, Within, IsRoomy}
use daemon_supply_chain.Stock.Putaway.{
  Place, has_room, received_quantity, find_storage_location, select_putaway_location,
  putaway_quantity, choose_place,
}

-- The place is an active location of the warehouse, and has room for what it takes.
abbrev pub Fits : String → Place → Db → Type 0
Fits warehouse_id p s =
    (find (has_key by_location p.location.location_id) s.locations ≡ some p.location)
    × ((p.location.warehouse_id == warehouse_id) ≡ true)
    × ((p.location.status == "ACTIVE") ≡ true)
    × Within (p.location.current_utilization + p.added) p.location.capacity_units

room-Within :
    (quantity : ℕ) (l : Location)
    → has_room quantity l ≡ true
    → Within (l.current_utilization + quantity) l.capacity_units
room-Within quantity l h = elim (Option-cases l.capacity_units) [
  | inl unbounded ↦ rw unbounded tt
  | inr (capacity, bounded) ↦ rw bounded (ground (arith, rw bounded at h))
]

module _ (warehouse_id : String) where
  -- What `_find_storage_location` finds, where the ids are unique.
  found-Fits :
      (quantity released reported : ℕ) (excluded : Option String) (s : Db) (l : Location)
      → find_storage_location warehouse_id quantity excluded s ≡ some l
      → IsRoomy s.locations
      → Fits warehouse_id
          (record { location = l; released = released; added = quantity; quantity = reported })
          s
  unfolding find_storage_location
  found-Fits quantity released reported excluded s l found h =
      let one =
        first-All _ _ l
          (All-sort_by _ _ _
            (All-filter_passes _ _ s.locations (Keyed-KeyedIn by_location s.locations h.keyed)))
          found in
      (one.0, ground arith, ground arith, room-Within quantity l (ground arith))

  -- Choosing a place changes nothing.
  abbrev pub Chosen : Db → Place → Db → Type 0
  Chosen s p t = (t ≡ s) × (IsRoomy s.locations → Fits warehouse_id p s)

  abbrev IsCurrent : Location → Db → Type 0
  IsCurrent l s =
      (IsRoomy s.locations → find (has_key by_location l.location_id) s.locations ≡ some l)
      × ((l.warehouse_id == warehouse_id) ≡ true)
      × ((l.status == "ACTIVE") ≡ true)

  abbrev SelectFrom : Location → Db → Place → Db → Type 0
  SelectFrom current s p t =
      (t ≡ s) × (IsCurrent current s → IsRoomy s.locations → Fits warehouse_id p s)

  select-Does :
      (current : Location) (received total : ℕ) (capacity : Option ℕ)
      → current.capacity_units ≡ capacity
      → Does
          (SelectFrom current)
          (select_putaway_location warehouse_id current received total capacity)
  unfolding select_putaway_location ◌>>=◌
  select-Does current received total none e = record { at = λ s. tt }
  select-Does current received total (some capacity) e =
      elim (Bool-cases (leb (current.current_utilization + received) capacity)) [
        | inl fits ↦
            rw fits (record { at = λ s. (refl, λ c h. (c.0 h, c.1, c.2, rw e (ground arith))) })
        | inr full ↦ rw full (record {
          at = λ s.
              elim (Option-cases
                (find_storage_location warehouse_id total (some current.location_id) s)) [
                  | inl missing ↦ rw missing tt
                  | inr (l, found) ↦ rw found (
                    refl,
                    λ c h.
                        found-Fits total (total - received) received (some current.location_id) s l
                          found h,
                  )
                ];
        })
      ]

-- Choosing a place for a row changes nothing, and gives one that fits.
module _ (env : Env) (row : Inventory) where
  quantity-Does : (run : Option String) → Does (λ s q t. t ≡ s) (putaway_quantity row run)
  unfolding putaway_quantity ◌>>=◌ ◌>>◌
  quantity-Does none = record { at = λ s. refl }
  quantity-Does (some run) = record {
    at = λ s. elim (Bool-cases (leb (received_quantity row.inventory_id run s.transactions) 0)) [
      | inl nothing ↦ rw nothing tt
      | inr something ↦ rw something refl
    ];
  }

  abbrev current_place : String → Db → Option Location
  current_place id s =
      find (λ l. l.location_id == id && l.warehouse_id == row.warehouse_id && l.status == "ACTIVE")
        s.locations

  found-IsCurrent :
      (id : String) (s : Db) (l : Location)
      → current_place id s ≡ some l
      → IsCurrent row.warehouse_id l s
  found-IsCurrent id s l found =
      let passes = find-passes _ s.locations l found in
      (
        λ h. find-All _ _ s.locations l found (Keyed-KeyedIn by_location s.locations h.keyed),
        ground arith,
        ground arith,
      )

  pub choose_place-Does :
      (location_id : Option String)
      → Does (Chosen row.warehouse_id) (choose_place env row location_id)
  unfolding choose_place ◌>>=◌
  choose_place-Does none = record {
    at = λ s. elim (Option-cases (find_storage_location row.warehouse_id (available row) none s)) [
      | inl missing ↦ rw missing tt
      | inr (l, found) ↦ rw found (
        refl,
        λ h. found-Fits row.warehouse_id (available row) 0 (available row) none s l found h,
      )
    ];
  }
  choose_place-Does (some id) = record {
    at = λ s. by_current s (Option-cases (current_place id s));
  }
    where
      by_current :
          (s : Db)
          → (current_place id s ≡ none) ⊎ ((l : Location) × (current_place id s ≡ some l))
          → Holds (Chosen row.warehouse_id) s (choose_place env row (some id) s)
      by_current s (inl missing) = rw missing tt
      by_current s (inr (l, found)) = rw found (
          Holds-mono (SelectFrom row.warehouse_id l) (Chosen row.warehouse_id) s s _
            (λ p t h. (h.0, λ roomy. h.1 (found-IsCurrent id s l found) roomy))
            ((Does-bind (λ s q t. t ≡ s) (λ q. SelectFrom row.warehouse_id l)
                (SelectFrom row.warehouse_id l)
                (putaway_quantity row (given env.simulation_correlation_id)) _ (quantity-Does _)
                (λ q. select-Does row.warehouse_id l q (available row) l.capacity_units refl)
                (λ s q t p u same r. subst (λ x. SelectFrom row.warehouse_id l x p u) same r)).at
              s))
