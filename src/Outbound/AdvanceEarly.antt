-- ===== src/Outbound/AdvanceEarly.antt =====
-- shipment_ready.py and carrier_assigned.py keep shipments and their transportation in step.
use daemon_supply_chain.Common.{
  ℕ, suc, ◌≤◌, String, ◌≡◌, refl, inl, inr, arith, ◌==◌, ◌&&◌, true, false, Bool-cases, Option,
  none, some, [], ◌∷◌, ◌++◌, map, any, find,
}
use daemon_supply_chain.Common.Keyed.{has_key, at_key, map-at_key_miss}
use daemon_supply_chain.Common.Stateful.{◌>>=◌, ◌>>◌}
use daemon_supply_chain.Stock.{Package, Fulfillment, OutboundShipment, Resource, Db, Env}
use daemon_supply_chain.Stock.Queries.{publish}
use daemon_supply_chain.Outbound.{is_null_or, set_resources, set_status}
use daemon_supply_chain.Outbound.Ready.{
  insert_outbound, insert_fulfillment, fulfillment_of, new_fulfillment, write_ready, ship_package,
  make_ready,
}
use daemon_supply_chain.Outbound.Carrier.{
  find_ready, carrier_row, mark_assigned, write_carrier, carry, assign_carrier,
}
use daemon_supply_chain.Outbound.Lockstep.{
  by_shipment, by_transport, IsLockstep, IsForward-append, rank, move, none_ready, add-IsLockstep,
  insert-IsLockstep,
}
use daemon_supply_chain.Outbound.Exclusive.{is_active, assign-IsExclusive, find_active-is_active}
use daemon_supply_chain.Outbound.Loads.{IsCarried}
use daemon_supply_chain.Outbound.Advance.{
  View, view, Advances, Works, Works-bind, Works-found, Works-then_pure, Leaves, Leaves-bind,
  Leaves-pure, Leaves-gets, Leaves-or_raise, Leaves-raise_if, generate_id-Leaves, found_by,
}

write_ready-Works :
    (env : Env) (p : Package) (x : OutboundShipment) → Works (λ v. Unit) (write_ready env p x)
unfolding write_ready insert_outbound publish ◌>>=◌ ◌>>◌
write_ready-Works env p x = record {
  at = λ s free. elim (Bool-cases (any (has_key by_shipment x.shipment_id) s.outbound_shipments)) [
    | inl taken ↦ rw taken tt
    | inr free ↦ rw free (
        Works-then_pure s _ _ x.shipment_id λ lock. (
          insert-IsLockstep s.outbound_shipments s.transportations x lock free,
          IsForward-append s.outbound_shipments (x ∷ []),
          λ c. c,
        ))
  ];
}

insert_fulfillment-Leaves :
    (env : Env) (p : Package) (id : String) → Leaves (insert_fulfillment (new_fulfillment p id))
unfolding insert_fulfillment
insert_fulfillment-Leaves env p id = record {
  at = λ s.
      elim (Bool-cases
        (any (λ old. old.fulfillment_id == (new_fulfillment p id).fulfillment_id) s.fulfillments)) [
          | inl taken ↦ rw taken tt
          | inr free ↦ rw free refl
        ];
}

fulfillment_of-Leaves :
    (env : Env) (p : Package) (old : Option Fulfillment) → Leaves (fulfillment_of env p old)
unfolding fulfillment_of ◌>>◌
fulfillment_of-Leaves env p (some old) = Leaves-pure _
fulfillment_of-Leaves env p none =
    Leaves-bind _ _ (generate_id-Leaves env "FUL")
      λ id. Leaves-bind _ _ (insert_fulfillment-Leaves env p id) λ u. Leaves-pure id

pub make_ready-Works :
    (env : Env) (package_id : Option String) → Works (λ v. Unit) (make_ready env package_id)
unfolding make_ready ship_package ◌>>◌
make_ready-Works env package_id = Works-bind _ _ _ (Leaves-gets _) λ found.
    Works-bind _ _ _ (Leaves-or_raise _ _) λ p. Works-bind _ _ _ (Leaves-gets _) λ old.
      Works-bind _ _ _ (fulfillment_of-Leaves env p old) λ id.
        Works-bind _ _ _ (Leaves-gets _) λ existing. Works-bind _ _ _ (Leaves-raise_if _ _) λ u.
          Works-bind _ _ _ (generate_id-Leaves env "SHP") λ shipment_id.
            Works-bind _ _ _ (record { at = λ s. refl }) λ days. write_ready-Works env p _

-- A shipment that is ready, where the tables are in step.
abbrev IsReady : OutboundShipment → View → Type 0
IsReady x v =
    IsLockstep v.0 v.1
    → (find (has_key by_shipment x.shipment_id) v.0 ≡ some x)
      × ((x.shipment_status == "READY") ≡ true)

abbrev HasVehicle : OutboundShipment → Resource → View → Type 0
HasVehicle x vehicle v = IsReady x v × (any (is_active vehicle.resource_id) v.2 ≡ true)

abbrev HasTrailer : OutboundShipment → Resource → Resource → View → Type 0
HasTrailer x vehicle trailer v =
    HasVehicle x vehicle v × (any (is_active trailer.resource_id) v.3 ≡ true)

-- A shipment that is ready, and what may carry it.
abbrev HasCarriers : OutboundShipment → Resource → Resource → Resource → View → Type 0
HasCarriers x vehicle trailer driver v =
    HasTrailer x vehicle trailer v × (any (is_active driver.resource_id) v.4 ≡ true)

module _ (env : Env) (x : OutboundShipment) (vehicle trailer driver : Resource) where
  assigned :
      (v : View) (id : ℕ)
      → HasCarriers x vehicle trailer driver v
      → IsCarried v.1 v.2 v.3 v.4
      → IsCarried
          (v.1 ++ carrier_row env x.shipment_id vehicle trailer driver id ∷ [])
          (set_status vehicle.resource_id "ASSIGNED" v.2)
          (set_status trailer.resource_id "ASSIGNED" v.3)
          (set_status driver.resource_id "ASSIGNED" v.4)
  unfolding carrier_row
  assigned v id has c = record {
    by_vehicle =
        assign-IsExclusive _ "ASSIGNED" vehicle.resource_id _ v.1 v.2 refl refl has.0.0.1
          c.by_vehicle;
    by_trailer =
        assign-IsExclusive _ "ASSIGNED" trailer.resource_id _ v.1 v.3 refl refl has.0.1
          c.by_trailer;
    by_driver =
        assign-IsExclusive _ "ASSIGNED" driver.resource_id _ v.1 v.4 refl refl has.1 c.by_driver;
  }

  carried :
      (v : View) (id : ℕ)
      → HasCarriers x vehicle trailer driver v
      → Advances v (
        map (at_key by_shipment x.shipment_id mark_assigned) v.0,
        v.1 ++ carrier_row env x.shipment_id vehicle trailer driver id ∷ [],
        set_status vehicle.resource_id "ASSIGNED" v.2,
        set_status trailer.resource_id "ASSIGNED" v.3,
        set_status driver.resource_id "ASSIGNED" v.4,
      )
  unfolding carrier_row rank
  carried v id has lock =
      let (found, is_ready) = has.0.0.0 lock in
      let up : rank x.shipment_status ≤ rank "ASSIGNED" = ground arith in
      let free : any (has_key by_transport x.shipment_id) v.1 ≡ false =
        none_ready v.0 x.shipment_id x found is_ready v.1 lock.matched in
      let moved =
        move v.0 v.1 lock x.shipment_id x found mark_assigned (λ r. refl)
          (λ t. record t { status = "ASSIGNED" }) (λ r. refl) "ASSIGNED" refl (λ r. refl)
          (λ r. refl) up in
      let unchanged : map
            (at_key by_transport x.shipment_id (λ t. record t { status = "ASSIGNED" })) v.1
          ≡ v.1 =
        map-at_key_miss by_transport x.shipment_id _ v.1 free in
      (
        add-IsLockstep _ v.1 (carrier_row env x.shipment_id vehicle trailer driver id)
            (rw unchanged at moved.0) free
            (record {
              shipment = mark_assigned x;
              found = moved.2;
              same_status = refl;
              past_ready = refl;
            }),
        moved.1,
        assigned v id has,
      )

  write_carrier-Works :
      Works (HasCarriers x vehicle trailer driver) (write_carrier env x vehicle trailer driver)
  unfolding write_carrier set_resources publish ◌>>=◌ ◌>>◌
  write_carrier-Works = record {
    at = λ s has.
        Works-then_pure s _ _ x.shipment_id (carried (view s) (suc s.transportation_sequence) has);
  }

carry-Works : (env : Env) (x : OutboundShipment) → Works (IsReady x) (carry env x)
unfolding carry
carry-Works env x =
    Works-found _ (HasVehicle x) _ _ _
      (λ s r p found. (p, find_active-is_active s.vehicles r found))
      λ vehicle.
        Works-found _ (HasTrailer x vehicle) _ _ _
          (λ s r p found. (p, find_active-is_active s.trailers r found))
          λ trailer.
            Works-found _ (HasCarriers x vehicle trailer) _ _ _
              (λ s r p found. (p, find_active-is_active s.drivers r found))
              (write_carrier-Works env x vehicle trailer)

found-IsReady :
    (shipment_id : Option String) (s : Db) (x : OutboundShipment)
    → find_ready shipment_id s ≡ some x
    → IsReady x (view s)
unfolding find_ready
found-IsReady shipment_id s x found lock =
    let one =
      found_by (λ x. x.shipment_status == "READY" && is_null_or shipment_id x.shipment_id) _
        s.outbound_shipments x lock.keyed found in
    (one.0, ground (arith, one.1))

pub assign_carrier-Works :
    (env : Env) (shipment_id : Option String) → Works (λ v. Unit) (assign_carrier env shipment_id)
unfolding assign_carrier
assign_carrier-Works env shipment_id =
    Works-found (λ v. Unit) IsReady _ _ _ (λ s x p. found-IsReady shipment_id s x) (carry-Works env)
