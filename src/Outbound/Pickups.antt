-- ===== src/Outbound/Pickups.antt =====
-- shipment_in_transit.py: what its query finds, where the tables are in step.
use daemon_supply_chain.Common.{
  String, ◌≡◌, inl, inr, true, Bool-cases, Option, none, some, List, [], ◌∷◌, map, find, All,
  All-append, All-filter,
}
use daemon_supply_chain.Common.Keyed.{has_key, Keyed-KeyedIn}
use daemon_supply_chain.Common.Sorting.{All-sort_by}
use daemon_supply_chain.Stock.{OutboundShipment, Fulfillment, Transportation, Db}
use daemon_supply_chain.Stock.Chosen.{first-All}
use daemon_supply_chain.Outbound.InTransit.{Pickup, is_pickup, with_transport, pickups, find_pickup}
use daemon_supply_chain.Outbound.Lockstep.{by_shipment, by_transport, IsLockstep}
use daemon_supply_chain.Outbound.Advance.{View, view}

-- What the rows of the two tables have, the rows of the query have, and they fit.
module _ (A : OutboundShipment → Type 0) (B : Transportation → Type 0) (fs : List Fulfillment) where
  abbrev Fits : Pickup → Type 0
  Fits p = A p.shipment × B p.transport × (is_pickup p.shipment p.transport ≡ true)

  with_fulfillment-All :
      (x : OutboundShipment) (y : Transportation)
      → A x
      → B y
      → is_pickup x y ≡ true
      → (fs : List Fulfillment)
      → All Fits (map (λ f. record { shipment = x; fulfillment = f; transport = y }) fs)
  with_fulfillment-All x y a b fits [] = tt
  with_fulfillment-All x y a b fits (f ∷ fs) = ((a, b, fits), with_fulfillment-All x y a b fits fs)

  with_transport-All :
      (x : OutboundShipment)
      → A x
      → (ys : List Transportation) → All B ys
      → All Fits (with_transport fs x ys)
  with_transport-All x a [] h = tt
  with_transport-All x a (y ∷ ys) h = elim (Bool-cases (is_pickup x y)) [
    | inl fits ↦ rw fits (
        All-append Fits _ _ (with_fulfillment-All x y a h.0 fits _) (with_transport-All x a ys h.1))
    | inr other ↦ rw other (with_transport-All x a ys h.1)
  ]

  pickups-All :
      (xs : List OutboundShipment) (ys : List Transportation)
      → All A xs
      → All B ys
      → All Fits (pickups fs ys xs)
  pickups-All [] ys h k = tt
  pickups-All (x ∷ xs) ys h k =
      All-append Fits (with_transport fs x ys) (pickups fs ys xs) (with_transport-All x h.0 ys k)
        (pickups-All xs ys h.1 k)

-- A shipment and its transportation that were picked up, where the tables are in step.
abbrev pub IsPickedUp : Pickup → View → Type 0
IsPickedUp p v =
    IsLockstep v.0 v.1
    → (find (has_key by_shipment p.shipment.shipment_id) v.0 ≡ some p.shipment)
      × (find (has_key by_transport p.transport.shipment_id) v.1 ≡ some p.transport)
      × (is_pickup p.shipment p.transport ≡ true)

pub found-IsPickedUp :
    (shipment_id : Option String) (s : Db) (p : Pickup)
    → find_pickup shipment_id s ≡ some p
    → IsPickedUp p (view s)
unfolding find_pickup
found-IsPickedUp none s p found lock =
    first-All _ _ p
      (All-sort_by _ _ _ (
        pickups-All _ _ s.fulfillments s.outbound_shipments s.transportations
          (Keyed-KeyedIn by_shipment s.outbound_shipments lock.keyed)
          (Keyed-KeyedIn by_transport s.transportations lock.one_each)))
      found
found-IsPickedUp (some id) s p found lock =
    first-All _ _ p
      (All-filter _ _ _ (
        pickups-All _ _ s.fulfillments s.outbound_shipments s.transportations
          (Keyed-KeyedIn by_shipment s.outbound_shipments lock.keyed)
          (Keyed-KeyedIn by_transport s.transportations lock.one_each)))
      found
