-- ===== src/Outbound/Conflict.antt =====
-- vehicle_assigned.py and shipment_picked_up.py both hand a shipment to its driver; what the pick-up and the
-- delivery of shipment_delivered.py find behind them.
use daemon_supply_chain.Common.{
  String, ◌≡◌, refl, subst, inl, inr, ◌⊎◌, ◌==◌, ◌&&◌, if◌then◌else◌, false, Bool-cases, Option,
  none, some, List, [], ◌∷◌, map, any, find, failure, Result, ok, err,
}
use daemon_supply_chain.Common.Stateful.{
  Stateful, Holds, Does, Does-bind, Does-transaction, Holds-then_pure, transaction, ◌>>=◌, ◌>>◌,
}
use daemon_supply_chain.Stock.{OutboundShipment, OutboundTracking, Transportation, Db, Env}
use daemon_supply_chain.Stock.Queries.{given, publish}
use daemon_supply_chain.Outbound.{has_outbound_id, insert_tracking}
use daemon_supply_chain.Outbound.PickedUp.{
  write_vehicle, confirm_vehicle, assign_to, assign_vehicle, generate_vehicle_assigned,
  mark_picked_up, find_outbound_assigned, pick_up, pick_up_with, hand_over, write_picked_up,
  generate_shipment_picked_up,
}
use daemon_supply_chain.Outbound.Delivered.{
  find_outbound_in_transit, deliver_outbound, generate_shipment_delivered,
}

-- All shipments of the id are picked up.
record IsWithDriver (id : String) (u : Db) : Type 0 where
  rows : List OutboundShipment
  mark : OutboundShipment → OutboundShipment
  same_id : (x : OutboundShipment) → (mark x).shipment_id ≡ x.shipment_id
  marked : (x : OutboundShipment) → (mark x).shipment_status ≡ "PICKED_UP"
  moved : u.outbound_shipments ≡ map (λ x. if has_outbound_id id x then mark x else x) rows

abbrev IsHandedOver : Db → String → Db → Type 0
IsHandedOver s id u = IsWithDriver id u

abbrev Anything : {A : Type 0} → Db → A → Db → Type 0
Anything s a t = Unit

anything : {A : Type 0} (m : Stateful Db A) → Does Anything m
anything m = record { at = λ s. trivial s (m s) }
  where
    trivial : {A : Type 0} (s : Db) (o : Result A × Db) → Holds Anything s o
    trivial s (ok a, t) = tt
    trivial s (err e, t) = tt

behind :
    {A : Type 0} (m : Stateful Db A) (f : A → Stateful Db String)
    → ((a : A) → Does IsHandedOver (f a))
    → Does IsHandedOver (m >>= f)
behind m f h =
    Does-bind Anything (λ a. IsHandedOver) IsHandedOver m f (anything m) h (λ s a t b u p q. q)

write_vehicle-IsHandedOver :
    (env : Env) (y : Transportation) (tracking : OutboundTracking) (correlation_id : String)
    → Does IsHandedOver (write_vehicle env y tracking correlation_id)
unfolding write_vehicle insert_tracking publish ◌>>=◌ ◌>>◌
write_vehicle-IsHandedOver env y tracking correlation_id = record {
  at = λ s.
      elim (Bool-cases (
        any (λ (old : OutboundTracking). old.tracking_id == tracking.tracking_id)
          s.outbound_trackings)) [
            | inl taken ↦ rw taken tt
            | inr free ↦ rw free (
                Holds-then_pure IsHandedOver s _ _ y.shipment_id (record {
                  rows = s.outbound_shipments;
                  mark = λ x. record x { shipment_status = "PICKED_UP" };
                  same_id = λ x. refl;
                  marked = λ x. refl;
                  moved = refl;
                }))
          ];
}

assign_vehicle-IsHandedOver : (env : Env) → Does IsHandedOver (assign_vehicle env)
unfolding assign_vehicle assign_to confirm_vehicle
assign_vehicle-IsHandedOver env = behind _ _ λ found. behind _ _ λ y. behind _ _ λ row.
    behind _ _ λ x. behind _ _ λ tracking_id.
      behind _ _
        λ days. behind _ _ λ latitude. behind _ _ λ longitude. write_vehicle-IsHandedOver env y _ _

write_picked_up-IsHandedOver :
    (env : Env) (x : OutboundShipment) (y : Transportation) (tracking : OutboundTracking)
    → Does IsHandedOver (write_picked_up env x y tracking)
unfolding write_picked_up insert_tracking publish ◌>>=◌ ◌>>◌
write_picked_up-IsHandedOver env x y tracking = record {
  at = λ s.
      elim (Bool-cases (
        any (λ (old : OutboundTracking). old.tracking_id == tracking.tracking_id)
          s.outbound_trackings)) [
            | inl taken ↦ rw taken tt
            | inr free ↦ rw free (
                Holds-then_pure IsHandedOver s _ _ x.shipment_id (record {
                  rows = s.outbound_shipments;
                  mark = mark_picked_up env.now;
                  same_id = λ x. refl;
                  marked = λ x. refl;
                  moved = refl;
                }))
          ];
}

pick_up-IsHandedOver : (env : Env) (asked : Option String) → Does IsHandedOver (pick_up env asked)
unfolding pick_up pick_up_with hand_over
pick_up-IsHandedOver env asked = behind _ _ λ found. behind _ _ λ x. behind _ _ λ row.
    behind _ _ λ y. behind _ _ λ days. behind _ _ λ tracking_id.
      behind _ _ λ latitude. behind _ _ λ longitude. write_picked_up-IsHandedOver env x y _

-- No shipment of the id has another status.
module _ (id status : String) (other_status : ("PICKED_UP" == status) ≡ false)
    (mark : OutboundShipment → OutboundShipment)
    (same_id : (x : OutboundShipment) → (mark x).shipment_id ≡ x.shipment_id)
    (marked : (x : OutboundShipment) → (mark x).shipment_status ≡ "PICKED_UP") where
  none_left :
      (xs : List OutboundShipment)
      → find
          (λ x. has_outbound_id id x && x.shipment_status == status)
          (map (λ x. if has_outbound_id id x then mark x else x) xs)
        ≡ none
  none_left [] = refl
  none_left (x ∷ xs) = elim (Bool-cases (has_outbound_id id x)) [
    | inl mine ↦ rw (mine, same_id x, mine, marked x, other_status) (none_left xs)
    | inr other ↦ rw (other, other) (none_left xs)
  ]

module _ (later : Env) (s u : Db) (id : String) (done : IsHandedOver s id u)
    (named : (id == "") ≡ false) where
  no_pick_up :
      generate_shipment_picked_up later (some id) u
      ≡ (err (failure "No PICKED_UP shipment found"), u)
  unfolding generate_shipment_picked_up pick_up find_outbound_assigned transaction ◌>>=◌
  no_pick_up =
      let left : find (λ x. has_outbound_id id x && x.shipment_status == "ASSIGNED")
            u.outbound_shipments
          ≡ none =
        rw done.moved (none_left id "ASSIGNED" refl done.mark done.same_id done.marked done.rows) in
      rw (named, left) refl

  no_delivery :
      generate_shipment_delivered later (some id) u
      ≡ (err (failure "No IN_TRANSIT shipment found"), u)
  unfolding generate_shipment_delivered deliver_outbound find_outbound_in_transit transaction ◌>>=◌
  no_delivery =
      let left : find (λ x. has_outbound_id id x && x.shipment_status == "IN_TRANSIT")
            u.outbound_shipments
          ≡ none =
        rw done.moved
          (none_left id "IN_TRANSIT" refl done.mark done.same_id done.marked done.rows) in
      rw (named, left) refl

handed_over :
    (env : Env) (asked : Option String) (s u : Db) (id : String)
    → (generate_vehicle_assigned env s ≡ (ok id, u))
      ⊎ (generate_shipment_picked_up env asked s ≡ (ok id, u))
    → IsHandedOver s id u
unfolding generate_vehicle_assigned generate_shipment_picked_up
handed_over env asked s u id (inl returned) =
    subst (Holds IsHandedOver s) returned
      ((Does-transaction IsHandedOver _ (assign_vehicle-IsHandedOver env)).at s)
handed_over env asked s u id (inr returned) =
    subst (Holds IsHandedOver s) returned
      ((Does-transaction IsHandedOver _ (pick_up-IsHandedOver env (given asked))).at s)

-- After generate_vehicle_assigned or generate_shipment_picked_up returned an id that is not empty,
-- both the pick-up and the delivery of its id raise and change nothing: the first looks for an
-- ASSIGNED shipment and the second for one IN_TRANSIT, and all shipments of the id are PICKED_UP.
pub picked_up_stuck :
    (env later : Env) (asked : Option String) (s u : Db) (id : String)
    → (generate_vehicle_assigned env s ≡ (ok id, u))
      ⊎ (generate_shipment_picked_up env asked s ≡ (ok id, u))
    → (id == "") ≡ false
    → (generate_shipment_picked_up later (some id) u
        ≡ (err (failure "No PICKED_UP shipment found"), u))
      × (generate_shipment_delivered later (some id) u
          ≡ (err (failure "No IN_TRANSIT shipment found"), u))
picked_up_stuck env later asked s u id returned named =
    let done = handed_over env asked s u id returned in
    (no_pick_up later s u id done named, no_delivery later s u id done named)
