-- ===== src/Outbound/Loads.antt =====
-- What carries the shipments: the tables of a step, and what moves of transportations do to the three kinds of
-- resources.
use daemon_supply_chain.Common.{
  ℕ, String, ◌≡◌, refl, ap, subst, ◌∙◌, ◌≤◌, inl, inr, arith, ◌==◌, Bool, true, false, Bool-cases,
  Option, none, some, List, [], ◌∷◌, map, find, All,
}
use daemon_supply_chain.Common.Keyed.{has_key, at_key}
use daemon_supply_chain.Common.Sorting.{All-mono}
use daemon_supply_chain.Stock.{OutboundShipment, Transportation, Resource}
use daemon_supply_chain.Stock.Capacity.{same_text}
use daemon_supply_chain.Outbound.{set_status}
use daemon_supply_chain.Outbound.PickedUp.{mark_transport_picked_up}
use daemon_supply_chain.Outbound.Delivered.{mark_transport_delivered}
use daemon_supply_chain.Outbound.Lockstep.{by_shipment, by_transport, IsMatched, rank}
use daemon_supply_chain.Outbound.Exclusive.{
  Kept, IsExclusive, move-IsExclusive, take-IsExclusive, release-IsExclusive,
}

-- No vehicle, no trailer and no driver has two transportations that are not delivered, nor one while it is
-- active.
pub record IsCarried (ts : List Transportation) (vehicles trailers drivers : List Resource)
    : Type 0 where
  pub by_vehicle : IsExclusive (λ t. t.vehicle_id) ts vehicles
  pub by_trailer : IsExclusive (λ t. t.trailer_id) ts trailers
  pub by_driver : IsExclusive (λ t. t.driver_id) ts drivers

-- The change keeps what carries the shipment, and does not take back a delivery.
pub record GoesOn (g : Transportation → Transportation) (t : Transportation) : Type 0 where
  pub same_vehicle : (g t).vehicle_id ≡ t.vehicle_id
  pub same_trailer : (g t).trailer_id ≡ t.trailer_id
  pub same_driver : (g t).driver_id ≡ t.driver_id
  pub ended : (t.status == "DELIVERED") ≡ true → ((g t).status == "DELIVERED") ≡ true

GoesOn-Kept :
    (ref : Transportation → Option String) (g : Transportation → Transportation) (id : String)
    (t : Transportation)
    → ref (g t) ≡ ref t
    → GoesOn g t
    → Kept ref id g t
GoesOn-Kept ref g id t same h carried = elim (Bool-cases (t.status == "DELIVERED")) [
  | inl delivered ↦ absurd (ground (arith, rw (h.ended delivered) at carried))
  | inr other ↦ let named = rw same at carried in ground arith
]

module _ (g : Transportation → Transportation) (ts : List Transportation)
    (h : All (GoesOn g) ts) where
  keeps :
      (ref : Transportation → Option String)
      → ((t : Transportation) → GoesOn g t → ref (g t) ≡ ref t)
      → (id : String) → All (Kept ref id g) ts
  keeps ref same id =
      All-mono (GoesOn g) (Kept ref id g) (λ t k. GoesOn-Kept ref g id t (same t k) k) ts h

  pub move-IsCarried :
      (vehicles trailers drivers : List Resource)
      → IsCarried ts vehicles trailers drivers
      → IsCarried (map g ts) vehicles trailers drivers
  move-IsCarried vehicles trailers drivers c = record {
    by_vehicle = move-IsExclusive _ g ts vehicles (keeps _ λ t k. k.same_vehicle) c.by_vehicle;
    by_trailer = move-IsExclusive _ g ts trailers (keeps _ λ t k. k.same_trailer) c.by_trailer;
    by_driver = move-IsExclusive _ g ts drivers (keeps _ λ t k. k.same_driver) c.by_driver;
  }

  -- The delivery of what a query finds.
  pub release-IsCarried :
      (vehicles trailers drivers : List Resource) (q : Transportation → Bool) (y : Transportation)
      → ((t : Transportation) → q t ≡ true → ((g t).status == "DELIVERED") ≡ true)
      → find q ts ≡ some y
      → (y.status == "DELIVERED") ≡ false
      → IsCarried ts vehicles trailers drivers
      → IsCarried
          (map g ts)
          (elim (y.vehicle_id) [ none ↦ vehicles | some id ↦ set_status id "ACTIVE" vehicles ])
          (elim (y.trailer_id) [ none ↦ trailers | some id ↦ set_status id "ACTIVE" trailers ])
          (elim (y.driver_id) [ none ↦ drivers | some id ↦ set_status id "ACTIVE" drivers ])
  release-IsCarried vehicles trailers drivers q y gone found under_way c = record {
    by_vehicle =
        release-IsExclusive _ q g ts vehicles y (keeps _ λ t k. k.same_vehicle)
          (λ id t hit. rw (gone t hit) refl) found under_way c.by_vehicle;
    by_trailer =
        release-IsExclusive _ q g ts trailers y (keeps _ λ t k. k.same_trailer)
          (λ id t hit. rw (gone t hit) refl) found under_way c.by_trailer;
    by_driver =
        release-IsExclusive _ q g ts drivers y (keeps _ λ t k. k.same_driver)
          (λ id t hit. rw (gone t hit) refl) found under_way c.by_driver;
  }

pub take-IsCarried :
    (status : String) (vehicle trailer driver : Option String) (ts : List Transportation)
    (vehicles trailers drivers : List Resource)
    → (status == "ACTIVE") ≡ false
    → IsCarried ts vehicles trailers drivers
    → IsCarried ts
        (elim vehicle [ none ↦ vehicles | some id ↦ set_status id status vehicles ])
        (elim trailer [ none ↦ trailers | some id ↦ set_status id status trailers ])
        (elim driver [ none ↦ drivers | some id ↦ set_status id status drivers ])
take-IsCarried status vehicle trailer driver ts vehicles trailers drivers s c = record {
  by_vehicle = take-IsExclusive _ status vehicle ts vehicles s c.by_vehicle;
  by_trailer = take-IsExclusive _ status trailer ts trailers s c.by_trailer;
  by_driver = take-IsExclusive _ status driver ts drivers s c.by_driver;
}

-- In step with a shipment that is not delivered, its transportation is not either.
module _ (ships : List OutboundShipment) (id : String) (x : OutboundShipment)
    (found : find (has_key by_shipment id) ships ≡ some x) where
  pub same_status_as :
      (t : Transportation)
      → IsMatched ships t
      → has_key by_transport id t ≡ true
      → x.shipment_status ≡ t.status
  same_status_as t h mine =
      let here : find (has_key by_shipment id) ships ≡ some h.shipment =
        subst (λ j. find (has_key by_shipment j) ships ≡ some h.shipment)
          (same_text t.shipment_id id mine) h.found in
      let equal : x ≡ h.shipment = ground (arith, here) in
      ap (λ (r : OutboundShipment). r.shipment_status) equal ∙ h.same_status

  pub picked_up-GoesOn :
      (now : ℕ) (ts : List Transportation)
      → (x.shipment_status == "DELIVERED") ≡ false
      → All (IsMatched ships) ts
      → All (GoesOn (at_key by_transport id (mark_transport_picked_up now))) ts
  picked_up-GoesOn now ts open_yet h =
      All-mono (IsMatched ships) (GoesOn (at_key by_transport id (mark_transport_picked_up now)))
        one ts h
    where
      one :
          (t : Transportation)
          → IsMatched ships t
          → GoesOn (at_key by_transport id (mark_transport_picked_up now)) t
      one t m = elim (Bool-cases (has_key by_transport id t)) [
        | inl mine ↦
            let under_way : (t.status == "DELIVERED") ≡ false =
              subst (λ w. (w == "DELIVERED") ≡ false) (same_status_as t m mine) open_yet in
            record {
              same_vehicle = rw mine refl;
              same_trailer = rw mine refl;
              same_driver = rw mine refl;
              ended = λ e. cc;
            }
        | inr other ↦ record {
          same_vehicle = rw other refl;
          same_trailer = rw other refl;
          same_driver = rw other refl;
          ended = λ e. rw other e;
        }
      ]

pub delivered-GoesOn :
    (now : ℕ) (id : String) (ts : List Transportation)
    → All (GoesOn (at_key by_transport id (mark_transport_delivered now))) ts
delivered-GoesOn now id [] = tt
delivered-GoesOn now id (t ∷ ts) = (
  elim (Bool-cases (has_key by_transport id t)) [
    | inl mine ↦ record {
      same_vehicle = rw mine refl;
      same_trailer = rw mine refl;
      same_driver = rw mine refl;
      ended = λ e. rw mine refl;
    }
    | inr other ↦ record {
      same_vehicle = rw other refl;
      same_trailer = rw other refl;
      same_driver = rw other refl;
      ended = λ e. rw other e;
    }
  ],
  delivered-GoesOn now id ts,
)

-- A text that is one word is no other.
pub excludes : (s a b : String) → (a == b) ≡ false → (s == a) ≡ true → (s == b) ≡ false
excludes s a b differ same = rw (same_text s a same) differ

pub rank-open : (s : String) → rank s ≤ rank "PICKED_UP" → (s == "DELIVERED") ≡ false
unfolding rank
rank-open s up = elim (Bool-cases (s == "DELIVERED")) [
  | inr other ↦ other
  | inl delivered ↦
      let late : rank "DELIVERED" ≤ rank "PICKED_UP" =
        subst (λ w. rank w ≤ rank "PICKED_UP") (same_text s "DELIVERED" delivered) up in
      absurd (omega (arith, late))
]
