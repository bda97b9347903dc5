-- ===== src/Outbound/AdvanceLate.antt =====
-- vehicle_assigned.py and shipment_picked_up.py keep shipments and their transportation in step.
use daemon_supply_chain.Common.{
  Bool-cases, Option, String, any, arith, false, find, inl, inr, map, none, refl, some, true, ℕ,
  ◌&&◌, ◌==◌, ◌≡◌, ◌≤◌,
}
use daemon_supply_chain.Common.Keyed.{has_key, at_key}
use daemon_supply_chain.Common.Sorting.{All-sort_by, All-filter_passes}
use daemon_supply_chain.Common.Stateful.{◌>>=◌, ◌>>◌}
use daemon_supply_chain.Stock.{OutboundShipment, Transportation, OutboundTracking, Db, Env}
use daemon_supply_chain.Stock.Queries.{publish}
use daemon_supply_chain.Stock.Chosen.{first-All}
use daemon_supply_chain.Outbound.{insert_tracking, has_outbound_id}
use daemon_supply_chain.Outbound.PickedUp.{
  mark_transport_picked_up, mark_picked_up, find_assigned, write_vehicle, confirm_vehicle,
  assign_to, assign_vehicle, find_outbound_assigned, write_picked_up, hand_over, pick_up_with,
  pick_up,
}
use daemon_supply_chain.Outbound.Lockstep.{
  by_shipment, by_transport, IsLockstep, IsMatched, rank, move,
}
use daemon_supply_chain.Outbound.Loads.{move-IsCarried, picked_up-GoesOn, rank-open}
use daemon_supply_chain.Outbound.Advance.{
  View, view, Advances, Works, Works-bind, Works-found, Works-then_pure, Leaves-gets,
  Leaves-or_raise, generate_id-Leaves, found_by, found_test,
}

-- Where the tables are in step, the id finds a shipment that has not gone past the status.
abbrev pub CanMove : String → String → View → Type 0
CanMove id status v =
    IsLockstep v.0 v.1
    → (x : OutboundShipment) × (find (has_key by_shipment id) v.0 ≡ some x)
      × (rank x.shipment_status ≤ rank status)

-- The UPDATEs by the id of a shipment.
module _ (v : View) (id : String) where
  pub picked_up-Advances :
      (now : ℕ) (f : OutboundShipment → OutboundShipment)
      → ((r : OutboundShipment) → (f r).shipment_id ≡ r.shipment_id)
      → ((r : OutboundShipment) → (f r).shipment_status ≡ "PICKED_UP")
      → CanMove id "PICKED_UP" v
      → Advances v (
        map (at_key by_shipment id f) v.0,
        map (at_key by_transport id (mark_transport_picked_up now)) v.1,
        v.2,
        v.3,
        v.4,
      )
  unfolding rank
  picked_up-Advances now f same_f f_status can lock =
      let (x, found, up) = can lock in
      let moved =
        move v.0 v.1 lock id x found f same_f (mark_transport_picked_up now) (λ r. refl) "PICKED_UP"
          refl f_status (λ r. refl) up in
      let under_way : (x.shipment_status == "DELIVERED") ≡ false = rank-open _ up in
      (
        moved.0,
        moved.1,
        move-IsCarried _ v.1 (picked_up-GoesOn v.0 id x found now v.1 under_way lock.matched) v.2
            v.3 v.4,
      )

module _ (env : Env) where
  write_vehicle-Works :
      (y : Transportation) (tracking : OutboundTracking) (correlation_id : String)
      → Works (CanMove y.shipment_id "PICKED_UP") (write_vehicle env y tracking correlation_id)
  unfolding write_vehicle insert_tracking publish ◌>>=◌ ◌>>◌
  write_vehicle-Works y tracking correlation_id = record {
    at = λ s can.
        elim (Bool-cases (
          any (λ (old : OutboundTracking). old.tracking_id == tracking.tracking_id)
            s.outbound_trackings)) [
              | inl taken ↦ rw taken tt
              | inr free ↦ rw free (
                  Works-then_pure s _ _ y.shipment_id (
                    picked_up-Advances (view s) y.shipment_id env.now
                      (λ x. record x { shipment_status = "PICKED_UP" }) (λ r. refl) (λ r. refl)
                      can))
            ];
  }

  confirm_vehicle-Works :
      (y : Transportation) (x : OutboundShipment)
      → Works (CanMove y.shipment_id "PICKED_UP") (confirm_vehicle env y x)
  unfolding confirm_vehicle
  confirm_vehicle-Works y x = Works-bind _ _ _ (generate_id-Leaves env "TRK") λ tracking_id.
      Works-bind _ _ _ (record { at = λ s. refl })
        λ days.
          Works-bind _ _ _ (record { at = λ s. refl })
            λ latitude.
              Works-bind _ _ _ (record { at = λ s. refl }) λ longitude. write_vehicle-Works y _ _

  found_assigned :
      (s : Db) (y : Transportation)
      → find_assigned s ≡ some y
      → CanMove y.shipment_id "PICKED_UP" (view s)
  unfolding find_assigned rank
  found_assigned s y found lock =
      let (m, assigned) : IsMatched s.outbound_shipments y × ((y.status == "ASSIGNED") ≡ true) =
        first-All _ _ y
          (All-sort_by _ _ _ (
            All-filter_passes (IsMatched s.outbound_shipments) (λ y. y.status == "ASSIGNED")
              s.transportations lock.matched))
          found in
      (m.shipment, m.found, rw m.same_status (ground arith))

  pub assign_vehicle-Works : Works (λ v. Unit) (assign_vehicle env)
  unfolding assign_vehicle assign_to
  assign_vehicle-Works =
      Works-found (λ v. Unit) (λ y. CanMove y.shipment_id "PICKED_UP") _ _ _
        (λ s y p. found_assigned s y)
        λ y.
          Works-bind _ _ _ (Leaves-gets _)
            λ row. Works-bind _ _ _ (Leaves-or_raise _ _) λ x. confirm_vehicle-Works y x

  write_picked_up-Works :
      (x : OutboundShipment) (y : Transportation) (tracking : OutboundTracking)
      → Works (CanMove x.shipment_id "PICKED_UP") (write_picked_up env x y tracking)
  unfolding write_picked_up insert_tracking publish ◌>>=◌ ◌>>◌
  write_picked_up-Works x y tracking = record {
    at = λ s can.
        elim (Bool-cases (
          any (λ (old : OutboundTracking). old.tracking_id == tracking.tracking_id)
            s.outbound_trackings)) [
              | inl taken ↦ rw taken tt
              | inr free ↦ rw free (
                  Works-then_pure s _ _ x.shipment_id (
                    picked_up-Advances (view s) x.shipment_id env.now (mark_picked_up env.now)
                      (λ r. refl) (λ r. refl) can))
            ];
  }

  pick_up_with-Works :
      (x : OutboundShipment) → Works (CanMove x.shipment_id "PICKED_UP") (pick_up_with env x)
  unfolding pick_up_with hand_over
  pick_up_with-Works x = Works-bind _ _ _ (Leaves-gets _) λ row.
      Works-bind _ _ _ (Leaves-or_raise _ _) λ y.
        Works-bind _ _ _ (record { at = λ s. refl })
          λ days. Works-bind _ _ _ (generate_id-Leaves env "TRK") λ tracking_id.
            Works-bind _ _ _ (record { at = λ s. refl })
              λ latitude.
                Works-bind _ _ _ (record { at = λ s. refl })
                  λ longitude. write_picked_up-Works x y _

  found_outbound_assigned :
      (shipment_id : Option String) (s : Db) (x : OutboundShipment)
      → find_outbound_assigned shipment_id s ≡ some x
      → CanMove x.shipment_id "PICKED_UP" (view s)
  unfolding find_outbound_assigned rank
  found_outbound_assigned none s x found lock =
      let one =
        found_by (λ x. x.shipment_status == "ASSIGNED") _ s.outbound_shipments x lock.keyed found in
      (x, one.0, ground (arith, one.1))
  found_outbound_assigned (some id) s x found lock =
      let one =
        found_test (λ x. has_outbound_id id x && x.shipment_status == "ASSIGNED")
          s.outbound_shipments x lock.keyed found in
      (x, one.0, ground (arith, one.1))

  pub pick_up-Works : (shipment_id : Option String) → Works (λ v. Unit) (pick_up env shipment_id)
  unfolding pick_up
  pick_up-Works shipment_id =
      Works-found (λ v. Unit) (λ x. CanMove x.shipment_id "PICKED_UP") _ _ _
        (λ s x p. found_outbound_assigned shipment_id s x) pick_up_with-Works
