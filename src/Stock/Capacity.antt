-- ===== src/Stock/Capacity.antt =====
-- The locations of the warehouses: none is filled beyond its capacity.
use daemon_supply_chain.Common.{
  ℕ, ◌-◌, ◌≤◌, String, ◌≡◌, refl, arith, ◌==◌, eq_iff, eq_refl, true, inl, inr, Bool-cases, Option,
  none, some, List, [], ◌∷◌, map, find, All,
}
use daemon_supply_chain.Common.Keyed.{
  Key, Keyed, Keyed-KeyedIn, at_key, has_key, find-has_key, found-All, Keyed-map, All-map,
}
use daemon_supply_chain.Stock.{Location}

pub same_text : (a b : String) → (a == b) ≡ true → a ≡ b
same_text a b h = (eq_iff a b).0 h

abbrev pub by_location : Key Location String
by_location = record {
  key = λ l. l.location_id;
  same = ◌==◌;
  same_eq = same_text;
  same_self = eq_refl;
}

abbrev pub Within : ℕ → Option ℕ → Type 0
Within used none = Unit
Within used (some capacity) = used ≤ capacity

abbrev pub IsWithin : Location → Type 0
IsWithin l = Within l.current_utilization l.capacity_units

-- No two locations have one id, and each holds no more than its capacity, if it has one.
pub record IsRoomy (locations : List Location) : Type 0 where
  pub keyed : Keyed by_location locations
  pub within : All IsWithin locations

pub Within-le : (capacity : Option ℕ) (a b : ℕ) → b ≤ a → Within a capacity → Within b capacity
Within-le none a b h w = tt
Within-le (some capacity) a b h w = omega arith

-- A change that keeps the ids and the capacities and takes from what is used.
module _ (id : String) (f : Location → Location)
    (same_id : (l : Location) → (f l).location_id ≡ l.location_id)
    (lower : (l : Location) → IsWithin l → IsWithin (f l)) where
  lower_one : (l : Location) → IsWithin l → IsWithin (at_key by_location id f l)
  lower_one l h = elim (Bool-cases (has_key by_location id l)) [
    | inl same ↦ rw same (lower l h)
    | inr miss ↦ rw miss h
  ]

  lower_all : (ls : List Location) → All (λ l. IsWithin l → IsWithin (at_key by_location id f l)) ls
  lower_all [] = tt
  lower_all (l ∷ ls) = (lower_one l, lower_all ls)

  pub lower-IsRoomy : (ls : List Location) → IsRoomy ls → IsRoomy (map (at_key by_location id f) ls)
  lower-IsRoomy ls h = record {
    keyed = Keyed-map by_location id f same_id ls h.keyed;
    within = All-map IsWithin IsWithin _ ls (lower_all ls) h.within;
  }

abbrev pub lowered : ℕ → Location → Location
lowered quantity l = record l { current_utilization = l.current_utilization - quantity }

pub lowered-IsRoomy :
    (id : String) (quantity : ℕ) (ls : List Location)
    → IsRoomy ls
    → IsRoomy (map (at_key by_location id (lowered quantity)) ls)
lowered-IsRoomy id quantity ls h =
    lower-IsRoomy id (lowered quantity) (λ l. refl)
      (λ l w. Within-le l.capacity_units _ _ (omega arith) w) ls h

-- A change of the location that an id finds, which leaves it within its capacity.
module _ (id : String) (f : Location → Location) (ls : List Location) (found : Location)
    (is_found : find (has_key by_location id) ls ≡ some found)
    (same_id : (l : Location) → (f l).location_id ≡ l.location_id)
    (still : IsWithin (f found)) where
  pub found-IsRoomy : IsRoomy ls → IsRoomy (map (at_key by_location id f) ls)
  found-IsRoomy h = record {
    keyed = Keyed-map by_location id f same_id ls h.keyed;
    within =
        All-map IsWithin IsWithin _ ls
          (found-All by_location (λ l. IsWithin l → IsWithin (at_key by_location id f l)) id ls
            found is_found ls (Keyed-KeyedIn by_location ls h.keyed) (λ l miss. rw miss λ w. w)
            (rw (find-has_key by_location id ls found is_found) λ w. still))
          h.within;
  }
