-- ===== src/Outbound/AdvanceDelivered.antt =====
-- shipment_delivered.py keeps shipments and their transportation in step.
use daemon_supply_chain.Common.{
  subst, Option, String, arith, false, find, map, none, refl, some, true, ℕ, ◌&&◌, ◌==◌, ◌≡◌, ◌≤◌,
}
use daemon_supply_chain.Common.Keyed.{has_key, at_key, find-passes, find-All}
use daemon_supply_chain.Common.Stateful.{◌>>=◌, ◌>>◌}
use daemon_supply_chain.Stock.{OutboundShipment, Transportation, Db, Env}
use daemon_supply_chain.Stock.Queries.{publish}
use daemon_supply_chain.Outbound.{set_resources, has_outbound_id, set_status}
use daemon_supply_chain.Outbound.Delivered.{
  find_outbound_in_transit, mark_outbound_delivered, mark_transport_delivered, close_trackings,
  write_outbound_delivered, deliver_with, deliver_outbound,
}
use daemon_supply_chain.Outbound.Lockstep.{
  by_shipment, by_transport, IsLockstep, IsMatched, rank, move,
}
use daemon_supply_chain.Outbound.Loads.{
  release-IsCarried, delivered-GoesOn, same_status_as, excludes,
}
use daemon_supply_chain.Outbound.Advance.{
  View, view, Advances, Works, Works-bind, Works-found, Works-then_pure, found_by, found_test,
}

-- Where the tables are in step, the id finds a shipment in transit, and a transportation.
abbrev InTransit : String → View → Type 0
InTransit id v =
    IsLockstep v.0 v.1
    → (x : OutboundShipment) × (find (has_key by_shipment id) v.0 ≡ some x)
      × ((x.shipment_status == "IN_TRANSIT") ≡ true)

abbrev CanDeliver : String → Transportation → View → Type 0
CanDeliver id y v = InTransit id v × (find (has_key by_transport id) v.1 ≡ some y)

-- The UPDATEs by the id of a shipment, and what carried it.
module _ (v : View) (id : String) where
  delivered-Advances :
      (t : ℕ) (y : Transportation)
      → CanDeliver id y v
      → Advances v (
        map (at_key by_shipment id (mark_outbound_delivered t)) v.0,
        map (at_key by_transport id (mark_transport_delivered t)) v.1,
        elim (y.vehicle_id) [ none ↦ v.2 | some r ↦ set_status r "ACTIVE" v.2 ],
        elim (y.trailer_id) [ none ↦ v.3 | some r ↦ set_status r "ACTIVE" v.3 ],
        elim (y.driver_id) [ none ↦ v.4 | some r ↦ set_status r "ACTIVE" v.4 ],
      )
  unfolding rank
  delivered-Advances t y can lock =
      let (x, found, in_transit) = can.0 lock in
      let up : rank x.shipment_status ≤ rank "DELIVERED" = ground arith in
      let moved =
        move v.0 v.1 lock id x found (mark_outbound_delivered t) (λ r. refl)
          (mark_transport_delivered t) (λ r. refl) "DELIVERED" refl (λ r. refl) (λ r. refl) up in
      let same : x.shipment_status ≡ y.status =
        same_status_as v.0 id x found y (find-All (IsMatched v.0) _ v.1 y can.1 lock.matched)
          (find-passes _ v.1 y can.1) in
      let under_way : (y.status == "DELIVERED") ≡ false =
        excludes y.status "IN_TRANSIT" "DELIVERED" refl
          (subst (λ w. (w == "IN_TRANSIT") ≡ true) same in_transit) in
      (
        moved.0,
        moved.1,
        release-IsCarried _ v.1 (delivered-GoesOn t id v.1) v.2 v.3 v.4 (has_key by_transport id) y
            (λ r hit. rw hit refl) can.1 under_way,
      )

module _ (env : Env) where
  write_outbound_delivered-Works :
      (x : OutboundShipment) (y : Transportation) (t : ℕ)
      → Works (CanDeliver x.shipment_id y) (write_outbound_delivered env x y t)
  unfolding write_outbound_delivered close_trackings set_resources publish ◌>>=◌ ◌>>◌
  write_outbound_delivered-Works x y t = record {
    at = λ s can.
        Works-then_pure s _ _ x.shipment_id (delivered-Advances (view s) x.shipment_id t y can);
  }

  found-InTransit :
      (shipment_id : Option String) (s : Db) (x : OutboundShipment)
      → find_outbound_in_transit shipment_id s ≡ some x
      → InTransit x.shipment_id (view s)
  unfolding find_outbound_in_transit
  found-InTransit none s x found lock =
      let one =
        found_by (λ x. x.shipment_status == "IN_TRANSIT") _ s.outbound_shipments x lock.keyed
          found in
      (x, one.0, one.1)
  found-InTransit (some id) s x found lock =
      let one =
        found_test (λ x. has_outbound_id id x && x.shipment_status == "IN_TRANSIT")
          s.outbound_shipments x lock.keyed found in
      (x, one.0, ground (arith, one.1))

  pub deliver_outbound-Works :
      (shipment_id : Option String) → Works (λ v. Unit) (deliver_outbound env shipment_id)
  unfolding deliver_outbound deliver_with
  deliver_outbound-Works shipment_id =
      Works-found _ (λ x. InTransit x.shipment_id) _ _ _ (λ s x p. found-InTransit shipment_id s x)
        λ x.
          Works-found _ (CanDeliver x.shipment_id) _ _ _ (λ s y p found. (p, found))
            λ y.
              Works-bind _ _ _ (record { at = λ s. refl })
                λ hours. write_outbound_delivered-Works x y _
