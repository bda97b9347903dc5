-- ===== src/Outbound/Steps.antt =====
-- The way of the shipments to customers: calls of the generators, in any order and with any arguments,
-- each one transaction.
use daemon_supply_chain.Common.{Option, String}
use daemon_supply_chain.Stock.{Db, Env}
use daemon_supply_chain.Outbound.Ready.{generate_shipment_ready}
use daemon_supply_chain.Outbound.Carrier.{generate_carrier_assigned}
use daemon_supply_chain.Outbound.PickedUp.{generate_vehicle_assigned, generate_shipment_picked_up}
use daemon_supply_chain.Outbound.InTransit.{generate_shipment_in_transit}
use daemon_supply_chain.Outbound.Delivered.{generate_shipment_delivered}
use daemon_supply_chain.Outbound.Lockstep.{IsLockstep, IsForward, IsForward-refl}
use daemon_supply_chain.Outbound.Loads.{IsCarried}
use daemon_supply_chain.Outbound.Advance.{view, Advances, Advances-trans, transaction-Advances}
use daemon_supply_chain.Outbound.AdvanceEarly.{make_ready-Works, assign_carrier-Works}
use daemon_supply_chain.Outbound.AdvanceLate.{assign_vehicle-Works, pick_up-Works}
use daemon_supply_chain.Outbound.AdvanceDelivered.{deliver_outbound-Works}
use daemon_supply_chain.Outbound.AdvanceTransit.{set_out-Works}

-- One call of a generator, whether it returns or raises.
pub data Step : Db → Db → Type 0 where
  ready :
      (env : Env) (package_id : Option String) (s : Db)
      → Step s (generate_shipment_ready env package_id s).1
  carrier_assigned :
      (env : Env) (shipment_id : Option String) (s : Db)
      → Step s (generate_carrier_assigned env shipment_id s).1
  vehicle_assigned : (env : Env) (s : Db) → Step s (generate_vehicle_assigned env s).1
  picked_up :
      (env : Env) (shipment_id : Option String) (s : Db)
      → Step s (generate_shipment_picked_up env shipment_id s).1
  in_transit :
      (env : Env) (shipment_id : Option String) (s : Db)
      → Step s (generate_shipment_in_transit env shipment_id s).1
  delivered :
      (env : Env) (shipment_id : Option String) (s : Db)
      → Step s (generate_shipment_delivered env shipment_id s).1

pub data Reaches : Db → Db → Type 0 where
  none_yet : (s : Db) → Reaches s s
  after : (s t u : Db) → Reaches s t → Step t u → Reaches s u

Step-Advances : (s t : Db) → Step s t → Advances (view s) (view t)
unfolding generate_shipment_ready generate_carrier_assigned generate_vehicle_assigned
    generate_shipment_picked_up generate_shipment_in_transit generate_shipment_delivered
Step-Advances _ _ (Step.ready env package_id s) =
    transaction-Advances _ (make_ready-Works env package_id) s
Step-Advances _ _ (Step.carrier_assigned env shipment_id s) =
    transaction-Advances _ (assign_carrier-Works env shipment_id) s
Step-Advances _ _ (Step.vehicle_assigned env s) =
    transaction-Advances _ (assign_vehicle-Works env) s
Step-Advances _ _ (Step.picked_up env shipment_id s) =
    transaction-Advances _ (pick_up-Works env _) s
Step-Advances _ _ (Step.in_transit env shipment_id s) =
    transaction-Advances _ (set_out-Works env _) s
Step-Advances _ _ (Step.delivered env shipment_id s) =
    transaction-Advances _ (deliver_outbound-Works env _) s

Reaches-Advances : (s u : Db) → Reaches s u → Advances (view s) (view u)
Reaches-Advances _ _ (Reaches.none_yet s) =
    λ lock. (lock, IsForward-refl s.outbound_shipments, λ c. c)
Reaches-Advances _ _ (Reaches.after s t u before step) =
    Advances-trans (view s) (view t) (view u) (Reaches-Advances s t before) (Step-Advances t u step)

-- Whatever calls of the six generators of outbound shipments come in whatever order: from tables
-- where no two shipments have one id, no two transportations are of one shipment, and each
-- transportation has the status of its shipment, which is there and past READY, the tables stay so;
-- and no shipment is lost or goes back on the way READY, ASSIGNED, PICKED_UP, IN_TRANSIT,
-- DELIVERED.
pub Reaches-IsLockstep :
    (s u : Db)
    → Reaches s u
    → IsLockstep s.outbound_shipments s.transportations
    → IsLockstep u.outbound_shipments u.transportations
      × IsForward s.outbound_shipments u.outbound_shipments
Reaches-IsLockstep s u run lock = let after = Reaches-Advances s u run lock in (after.0, after.1)

-- Whatever calls of the six generators of outbound shipments come in whatever order: from tables
-- that are in step and where no vehicle, no trailer and no driver has two transportations that are
-- not delivered, nor one while it is active, these tables stay so, so that nothing is made to carry
-- two shipments at once.
pub Reaches-IsCarried :
    (s u : Db)
    → Reaches s u
    → IsLockstep s.outbound_shipments s.transportations
    → IsCarried s.transportations s.vehicles s.trailers s.drivers
    → IsCarried u.transportations u.vehicles u.trailers u.drivers
Reaches-IsCarried s u run lock carried = (Reaches-Advances s u run lock).2 carried
