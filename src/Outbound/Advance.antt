-- ===== src/Outbound/Advance.antt =====
-- Code that moves the shipments and what carries them forward in step.
use daemon_supply_chain.Common.{
  ◌≡◌, refl, subst, sym, Bool, true, false, Option, none, some, List, Result, ok, err, Error, ◌∙◌,
  String, find, filter, inl, inr, Option-cases,
}
use daemon_supply_chain.Common.Stateful.{
  Stateful, Holds, pure, gets, or_raise, raise_if, continue, transaction, settle, ◌>>=◌,
}
use daemon_supply_chain.Common.Keyed.{Keyed, Keyed-KeyedIn, has_key, find-All, find-passes}
use daemon_supply_chain.Common.Sorting.{sort_by, All-sort_by, All-filter_passes}
use daemon_supply_chain.Stock.{OutboundShipment, Transportation, Resource, Db, Env}
use daemon_supply_chain.Stock.Queries.{first, publish}
use daemon_supply_chain.Values.{Fields}
use daemon_supply_chain.Stock.Chosen.{first-All}
use daemon_supply_chain.Outbound.{generate_id}
use daemon_supply_chain.Outbound.Lockstep.{
  by_shipment, IsLockstep, IsForward, IsForward-refl, IsForward-trans,
}
use daemon_supply_chain.Outbound.Loads.{IsCarried}

-- The tables that are to stay in step: shipments, transportations, vehicles, trailers and drivers.
abbrev pub View : Type 0
View = List OutboundShipment × List Transportation × List Resource × List Resource × List Resource

abbrev pub view : Db → View
view s = (s.outbound_shipments, s.transportations, s.vehicles, s.trailers, s.drivers)

abbrev pub Loaded : View → Type 0
Loaded v = IsCarried v.1 v.2 v.3 v.4

abbrev pub Advances : View → View → Type 0
Advances v w = IsLockstep v.0 v.1 → IsLockstep w.0 w.1 × IsForward v.0 w.0 × (Loaded v → Loaded w)

pub Advances-trans : (v w x : View) → Advances v w → Advances w x → Advances v x
Advances-trans v w x h k lock =
    let first = h lock in
    let last = k first.0 in
    (last.0, IsForward-trans v.0 w.0 x.0 first.1 last.1, λ c. last.2 (first.2 c))

-- Where code returns, it has moved them, given that they are as a condition says.
pub record Works {A : Type 0} (Pre : View → Type 0) (m : Stateful Db A) : Type 0 where
  pub at : (s : Db) → Pre (view s) → Holds (λ s a u. Advances (view s) (view u)) s (m s)

-- Where code returns, it has left them.
pub record Leaves {A : Type 0} (m : Stateful Db A) : Type 0 where
  pub at : (s : Db) → Holds (λ s a u. view u ≡ view s) s (m s)

module _ {A B : Type 0} where
  Leaves-continue :
      (s : Db) (r : Result A) (t : Db) (f : A → Stateful Db B)
      → Holds (λ s a u. view u ≡ view s) s (r, t)
      → ((a : A) → Leaves (f a))
      → Holds (λ s a u. view u ≡ view s) s (continue f r t)
  Leaves-continue s (err e) t f h k = tt
  Leaves-continue s (ok a) t f h k = follow (f a t) ((k a).at t)
    where
      follow :
          (o : Result B × Db)
          → Holds (λ s b u. view u ≡ view s) t o
          → Holds (λ s b u. view u ≡ view s) s o
      follow (ok b, u) q = q ∙ h
      follow (err e, u) q = tt

  pub Leaves-bind :
      (m : Stateful Db A) (f : A → Stateful Db B)
      → Leaves m
      → ((a : A) → Leaves (f a))
      → Leaves (m >>= f)
  unfolding ◌>>=◌
  Leaves-bind m f h k = record { at = λ s. Leaves-continue s (m s).0 (m s).1 f (h.at s) k }

  Works-continue :
      (Pre : View → Type 0) (s : Db) (r : Result A) (t : Db) (f : A → Stateful Db B)
      → Pre (view s)
      → Holds (λ s a u. view u ≡ view s) s (r, t)
      → ((a : A) → Works Pre (f a))
      → Holds (λ s b u. Advances (view s) (view u)) s (continue f r t)
  Works-continue Pre s (err e) t f p h k = tt
  Works-continue Pre s (ok a) t f p h k = follow (f a t) ((k a).at t (subst Pre (sym h) p))
    where
      follow :
          (o : Result B × Db)
          → Holds (λ s b u. Advances (view s) (view u)) t o
          → Holds (λ s b u. Advances (view s) (view u)) s o
      follow (ok b, u) q = subst (λ v. Advances v (view u)) h q
      follow (err e, u) q = tt

  pub Works-bind :
      (Pre : View → Type 0) (m : Stateful Db A) (f : A → Stateful Db B)
      → Leaves m
      → ((a : A) → Works Pre (f a))
      → Works Pre (m >>= f)
  unfolding ◌>>=◌
  Works-bind Pre m f h k = record {
    at = λ s p. Works-continue Pre s (m s).0 (m s).1 f p (h.at s) k;
  }

module _ {A B : Type 0} where
  moved_then :
      (s : Db) (r : Result A) (t : Db) (f : A → Stateful Db B)
      → Holds (λ s a u. Advances (view s) (view u)) s (r, t)
      → ((a : A) → Leaves (f a))
      → Holds (λ s b u. Advances (view s) (view u)) s (continue f r t)
  moved_then s (err e) t f h k = tt
  moved_then s (ok a) t f h k = follow (f a t) ((k a).at t)
    where
      follow :
          (o : Result B × Db)
          → Holds (λ s b u. view u ≡ view s) t o
          → Holds (λ s b u. Advances (view s) (view u)) s o
      follow (ok b, u) q = subst (λ v. Advances (view s) v) (sym q) h
      follow (err e, u) q = tt

  -- The moves first, and then code that leaves them.
  pub Works-then :
      (Pre : View → Type 0) (m : Stateful Db A) (f : A → Stateful Db B)
      → Works Pre m
      → ((a : A) → Leaves (f a))
      → Works Pre (m >>= f)
  unfolding ◌>>=◌
  Works-then Pre m f h k = record { at = λ s p. moved_then s (m s).0 (m s).1 f (h.at s p) k }

module _ {A B : Type 0} where
  both_then :
      (s : Db) (r : Result A) (t : Db) (f : A → Stateful Db B)
      → Holds (λ s a u. Advances (view s) (view u)) s (r, t)
      → ((a : A) → Works (λ v. Unit) (f a))
      → Holds (λ s b u. Advances (view s) (view u)) s (continue f r t)
  both_then s (err e) t f h k = tt
  both_then s (ok a) t f h k = follow (f a t) ((k a).at t tt)
    where
      follow :
          (o : Result B × Db)
          → Holds (λ s b u. Advances (view s) (view u)) t o
          → Holds (λ s b u. Advances (view s) (view u)) s o
      follow (ok b, u) q = Advances-trans (view s) (view t) (view u) h q
      follow (err e, u) q = tt

  -- One move behind another.
  pub Works-both :
      (Pre : View → Type 0) (m : Stateful Db A) (f : A → Stateful Db B)
      → Works Pre m
      → ((a : A) → Works (λ v. Unit) (f a))
      → Works Pre (m >>= f)
  unfolding ◌>>=◌
  Works-both Pre m f h k = record { at = λ s p. both_then s (m s).0 (m s).1 f (h.at s p) k }

-- A query that finds a row, or else raises; the row meets a condition of its own.
pub Works-found :
    {A B : Type 0} (Pre : View → Type 0) (Found : A → View → Type 0) (query : Db → Option A)
    (e : Error) (f : A → Stateful Db B)
    → ((s : Db) (a : A) → Pre (view s) → query s ≡ some a → Found a (view s))
    → ((a : A) → Works (Found a) (f a))
    → Works Pre (gets query >>= λ o. or_raise e o >>= f)
unfolding ◌>>=◌
Works-found Pre Found query e f meets k = record {
  at = λ s p. elim (Option-cases (query s)) [
    | inl nothing ↦ rw nothing tt
    | inr (a, found) ↦ rw found ((k a).at s (meets s a p found))
  ];
}

-- A last piece of code that leaves them, and a value behind it.
pub Works-then_pure :
    {A B : Type 0} (s t : Db) (r : Result A) (b : B)
    → Advances (view s) (view t)
    → Holds (λ s b u. Advances (view s) (view u)) s (continue (λ a. pure b) r t)
Works-then_pure s t (ok a) b h = h
Works-then_pure s t (err e) b h = tt

pub Leaves-pure : {A : Type 0} (a : A) → Leaves (pure a)
Leaves-pure a = record { at = λ s. refl }

pub Leaves-gets : {A : Type 0} (f : Db → A) → Leaves (gets f)
Leaves-gets f = record { at = λ s. refl }

pub Leaves-or_raise : {A : Type 0} (e : Error) (o : Option A) → Leaves (or_raise e o)
Leaves-or_raise e none = record { at = λ s. tt }
Leaves-or_raise e (some a) = record { at = λ s. refl }

pub Leaves-raise_if : (b : Bool) (e : Error) → Leaves (raise_if b e)
Leaves-raise_if true e = record { at = λ s. tt }
Leaves-raise_if false e = record { at = λ s. refl }

-- A transaction moves them also where it raises.
pub transaction-Advances :
    {A : Type 0} (m : Stateful Db A)
    → Works (λ v. Unit) m
    → (s : Db) → Advances (view s) (view (transaction m s).1)
unfolding transaction
transaction-Advances m h s = after (m s) (h.at s tt)
  where
    after :
        {A : Type 0} (o : Result A × Db)
        → Holds (λ s a u. Advances (view s) (view u)) s o
        → Advances (view s) (view (settle s o).1)
    after (ok a, u) q = q
    after (err e, u) q = λ lock. (lock, IsForward-refl s.outbound_shipments, λ c. c)

pub generate_id-Leaves : (env : Env) (prefix : String) → Leaves (generate_id env prefix)
unfolding ◌>>=◌
generate_id-Leaves env prefix = record { at = λ s. refl }

-- What finding a shipment by a test and an order gives, where the ids are unique.
pub found_by :
    (q : OutboundShipment → Bool) (le : OutboundShipment → OutboundShipment → Bool)
    (rows : List OutboundShipment) (x : OutboundShipment)
    → Keyed by_shipment rows
    → first (sort_by le (filter q rows)) ≡ some x
    → (find (has_key by_shipment x.shipment_id) rows ≡ some x) × (q x ≡ true)
found_by q le rows x keyed found =
    first-All (λ r. (find (has_key by_shipment r.shipment_id) rows ≡ some r) × (q r ≡ true)) _ x
      (All-sort_by _ _ _ (
        All-filter_passes (λ r. find (has_key by_shipment r.shipment_id) rows ≡ some r) q rows
          (Keyed-KeyedIn by_shipment rows keyed)))
      found

pub found_test :
    (q : OutboundShipment → Bool) (rows : List OutboundShipment) (x : OutboundShipment)
    → Keyed by_shipment rows
    → find q rows ≡ some x
    → (find (has_key by_shipment x.shipment_id) rows ≡ some x) × (q x ≡ true)
found_test q rows x keyed found = (
  find-All (λ r. find (has_key by_shipment r.shipment_id) rows ≡ some r) q rows x found
      (Keyed-KeyedIn by_shipment rows keyed),
  find-passes q rows x found,
)

pub publish-Leaves :
    (env : Env) (event_type aggregate_type aggregate_id correlation_id : String) (payload : Fields)
    → Leaves (publish env event_type aggregate_type aggregate_id correlation_id payload)
unfolding publish
publish-Leaves env event_type aggregate_type aggregate_id correlation_id payload = record {
  at = λ s. returned s _ _ refl;
}
  where
    returned :
        {A : Type 0} (s t : Db) (r : Result A)
        → view t ≡ view s
        → Holds (λ s a u. view u ≡ view s) s (r, t)
    returned s t (ok a) h = h
    returned s t (err e) h = tt
