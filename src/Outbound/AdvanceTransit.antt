-- ===== src/Outbound/AdvanceTransit.antt =====
-- shipment_in_transit.py keeps shipments and their transportation in step.
use daemon_supply_chain.Common.{
  ℕ, ◌≤◌, String, ◌≡◌, refl, subst, inl, inr, arith, ◌==◌, eq_refl, nat_eq, ◌&&◌, true, false,
  Bool-cases, if◌then◌else◌, Option, some, List, [], ◌∷◌, map, find, All,
}
use daemon_supply_chain.Common.Keyed.{has_key, at_key, Keyed-KeyedIn, found-All}
use daemon_supply_chain.Common.Stateful.{◌>>◌}
use daemon_supply_chain.Stock.{OutboundShipment, Transportation, OutboundTracking, Env}
use daemon_supply_chain.Stock.Capacity.{same_text}
use daemon_supply_chain.Stock.Ledger.{nat_eq_self}
use daemon_supply_chain.Outbound.{set_resources, has_outbound_id, is_transport_of}
use daemon_supply_chain.Outbound.InTransit.{
  Pickup, is_pickup, Carriers, check_details, check_tracking, mark_in_transit,
  mark_transport_in_transit, move_in_transit, move_tracking, verify_tracking, Transit,
  write_in_transit, draw_transit, set_out_with, set_out,
}
use daemon_supply_chain.Outbound.Lockstep.{
  by_shipment, by_transport, IsLockstep, IsForward, IsForward-refl, rank, move,
}
use daemon_supply_chain.Outbound.Loads.{GoesOn, move-IsCarried, take-IsCarried, excludes}
use daemon_supply_chain.Outbound.Advance.{
  Works-both, Works, Works-bind, Works-found, Leaves, Leaves-bind, Leaves-pure, Leaves-gets,
  Leaves-or_raise, Leaves-raise_if, Works-then, publish-Leaves,
}
use daemon_supply_chain.Outbound.Pickups.{IsPickedUp, found-IsPickedUp}

map-same : {A : Type 0} (f g : A → A) (xs : List A) → All (λ x. f x ≡ g x) xs → map f xs ≡ map g xs
map-same f g [] h = refl
map-same f g (x ∷ xs) h = rw (h.0, map-same f g xs h.1) refl

module _ (ships : List OutboundShipment) (ts : List Transportation) (p : Pickup) (t : ℕ) where
  abbrev set_ship : OutboundShipment → OutboundShipment
  set_ship x =
      if has_outbound_id p.shipment.shipment_id x && x.shipment_status == "PICKED_UP"
      then mark_in_transit t x
      else x

  abbrev set_transport : Transportation → Transportation
  set_transport y =
      if nat_eq y.id p.transport.id
        && (is_transport_of p.shipment.shipment_id y && y.status == "PICKED_UP")
      then mark_transport_in_transit t y
      else y

  module _ (lock : IsLockstep ships ts)
      (found : find (has_key by_shipment p.shipment.shipment_id) ships ≡ some p.shipment)
      (carried : find (has_key by_transport p.transport.shipment_id) ts ≡ some p.transport)
      (fits : is_pickup p.shipment p.transport ≡ true) where
    of_shipment : p.transport.shipment_id ≡ p.shipment.shipment_id
    of_shipment = same_text _ _ (ground (arith, fits))

    picked_up : (p.shipment.shipment_status == "PICKED_UP") ≡ true
    picked_up = ground (arith, fits)

    transport_picked_up : (p.transport.status == "PICKED_UP") ≡ true
    transport_picked_up = ground (arith, fits)

    -- The tests of the status and of the id of the transportation change nothing.
    set_ship-same :
        map set_ship ships
        ≡ map (at_key by_shipment p.shipment.shipment_id (mark_in_transit t)) ships
    set_ship-same = map-same _ _ ships (
        found-All by_shipment
          (λ x. set_ship x ≡ at_key by_shipment p.shipment.shipment_id (mark_in_transit t) x)
          p.shipment.shipment_id ships p.shipment found ships
          (Keyed-KeyedIn by_shipment ships lock.keyed) (λ x miss. rw miss refl)
          (rw (eq_refl p.shipment.shipment_id, picked_up) refl))

    set_transport-same :
        map set_transport ts
        ≡ map (at_key by_transport p.shipment.shipment_id (mark_transport_in_transit t)) ts
    set_transport-same = map-same _ _ ts (
        found-All by_transport
          (λ y.
            set_transport y
            ≡ at_key by_transport p.shipment.shipment_id (mark_transport_in_transit t) y)
          p.shipment.shipment_id ts p.transport
          (subst (λ j. find (has_key by_transport j) ts ≡ some p.transport) of_shipment carried) ts
          (Keyed-KeyedIn by_transport ts lock.one_each) other_transport
          (rw
            (
              nat_eq_self p.transport.id,
              of_shipment,
              eq_refl p.shipment.shipment_id,
              transport_picked_up,
            )
            refl))
      where
        other_transport :
            (y : Transportation)
            → has_key by_transport p.shipment.shipment_id y ≡ false
            → set_transport y
              ≡ at_key by_transport p.shipment.shipment_id (mark_transport_in_transit t) y
        other_transport y miss = elim (Bool-cases (nat_eq y.id p.transport.id)) [
          | inl same ↦ rw (same, miss) refl
          | inr different ↦ rw (different, miss) refl
        ]

    moved :
        IsLockstep (map set_ship ships) (map set_transport ts)
        × IsForward ships (map set_ship ships)
    unfolding rank
    moved =
        let up : rank p.shipment.shipment_status ≤ rank "IN_TRANSIT" = ground (arith, picked_up) in
        let both =
          move ships ts lock p.shipment.shipment_id p.shipment found (mark_in_transit t) (λ r. refl)
            (mark_transport_in_transit t) (λ r. refl) "IN_TRANSIT" refl (λ r. refl) (λ r. refl)
            up in
        rw (set_ship-same, set_transport-same) (both.0, both.1)

  set_transport-GoesOn : (ys : List Transportation) → All (GoesOn set_transport) ys
  set_transport-GoesOn [] = tt
  set_transport-GoesOn (y ∷ ys) = (one, set_transport-GoesOn ys)
    where
      one : GoesOn set_transport y
      one =
          elim (Bool-cases (
            nat_eq y.id p.transport.id
            && (is_transport_of p.shipment.shipment_id y && y.status == "PICKED_UP"))) [
              | inl mine ↦
                  let status : (y.status == "PICKED_UP") ≡ true = ground arith in
                  record {
                    same_vehicle = rw mine refl;
                    same_trailer = rw mine refl;
                    same_driver = rw mine refl;
                    ended = λ e.
                        let other = excludes y.status "PICKED_UP" "DELIVERED" refl status in cc;
                  }
              | inr other ↦ record {
                same_vehicle = rw other refl;
                same_trailer = rw other refl;
                same_driver = rw other refl;
                ended = λ e. rw other e;
              }
            ]

move_in_transit-Works : (p : Pickup) (t : ℕ) → Works (IsPickedUp p) (move_in_transit p t)
unfolding move_in_transit
move_in_transit-Works p t = record {
  at = λ s ready lock.
      let (found, carried, fits) = ready lock in
      let both = moved s.outbound_shipments s.transportations p t lock found carried fits in
      (
        both.0,
        both.1,
        move-IsCarried _ s.transportations
            (set_transport-GoesOn s.outbound_shipments s.transportations p t s.transportations)
            s.vehicles s.trailers s.drivers,
      );
}

verify_tracking-Leaves : (tracking_id id : String) → Leaves (verify_tracking tracking_id id)
unfolding verify_tracking
verify_tracking-Leaves tracking_id id =
    Leaves-bind _ _ (Leaves-gets _)
      λ found. Leaves-bind _ _ (Leaves-or_raise _ _) λ row. Leaves-raise_if _ _

set_resources-Works :
    (vehicle trailer driver : Option String)
    → Works (λ v. Unit) (set_resources "IN_TRANSIT" vehicle trailer driver)
unfolding set_resources
set_resources-Works vehicle trailer driver = record {
  at = λ s p lock. (
    lock,
    IsForward-refl s.outbound_shipments,
    take-IsCarried "IN_TRANSIT" vehicle trailer driver s.transportations s.vehicles s.trailers
        s.drivers refl,
  );
}

write_in_transit-Works :
    (env : Env) (p : Pickup) (c : Carriers) (tracking_id : String) (r : Transit)
    → Works (IsPickedUp p) (write_in_transit env p c tracking_id r)
unfolding write_in_transit move_tracking ◌>>◌
write_in_transit-Works env p c tracking_id r =
    Works-both _ _ _ (move_in_transit-Works p r.in_transit_at) λ a.
      Works-then _ _ _ (set_resources-Works _ _ _) λ b.
        Leaves-bind _ _ (record { at = λ s. refl })
          λ d.
            Leaves-bind _ _ (verify_tracking-Leaves tracking_id p.shipment.shipment_id)
              λ e. Leaves-bind _ _ (publish-Leaves env _ _ _ _ _) λ id. Leaves-pure _

check_details-Leaves : (p : Pickup) → Leaves (check_details p)
unfolding check_details ◌>>◌
check_details-Leaves p = Leaves-bind _ _ (Leaves-raise_if _ _) λ a.
    Leaves-bind _ _ (Leaves-raise_if _ _) λ b. Leaves-bind _ _ (Leaves-raise_if _ _) λ c.
      Leaves-bind _ _ (Leaves-raise_if _ _) λ d. Leaves-bind _ _ (Leaves-raise_if _ _) λ e.
        Leaves-bind _ _ (Leaves-or_raise _ _) λ vehicle.
          Leaves-bind _ _ (Leaves-or_raise _ _) λ trailer.
            Leaves-bind _ _ (Leaves-or_raise _ _)
              λ driver. Leaves-bind _ _ (Leaves-raise_if _ _) λ f. Leaves-pure _

check_tracking-Leaves : (row : OutboundTracking) (c : Carriers) → Leaves (check_tracking row c)
unfolding check_tracking ◌>>◌
check_tracking-Leaves row c =
    Leaves-bind _ _ (Leaves-raise_if _ _)
      λ a. Leaves-bind _ _ (Leaves-raise_if _ _) λ b. Leaves-raise_if _ _

draw_transit-Leaves : (env : Env) (picked_up_at : ℕ) → Leaves (draw_transit env picked_up_at)
unfolding draw_transit ◌>>◌
draw_transit-Leaves env picked_up_at =
    Leaves-bind _ _ (record { at = λ s. refl })
      λ minutes. Leaves-bind _ _ (Leaves-raise_if _ _) λ a.
        Leaves-bind _ _ (record { at = λ s. refl })
          λ days.
            Leaves-bind _ _ (record { at = λ s. refl })
              λ latitude. Leaves-bind _ _ (record { at = λ s. refl }) λ longitude. Leaves-pure _

set_out_with-Works : (env : Env) (p : Pickup) → Works (IsPickedUp p) (set_out_with env p)
unfolding set_out_with ◌>>◌
set_out_with-Works env p = Works-bind _ _ _ (check_details-Leaves p) λ c.
    Works-bind _ _ _ (Leaves-gets _) λ tracked. Works-bind _ _ _ (Leaves-or_raise _ _) λ row.
      Works-bind _ _ _ (check_tracking-Leaves row c) λ a.
        Works-bind _ _ _ (Leaves-or_raise _ _) λ picked_up_at.
          Works-bind _ _ _ (draw_transit-Leaves env picked_up_at)
            λ r. write_in_transit-Works env p c row.tracking_id r

pub set_out-Works :
    (env : Env) (shipment_id : Option String) → Works (λ v. Unit) (set_out env shipment_id)
unfolding set_out
set_out-Works env shipment_id =
    Works-found (λ v. Unit) IsPickedUp _ _ _ (λ s p u. found-IsPickedUp shipment_id s p)
      (set_out_with-Works env)
