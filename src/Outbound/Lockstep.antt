-- ===== src/Outbound/Lockstep.antt =====
-- Shipments and what carries them: their statuses move in step, and only forward.
use daemon_supply_chain.Common.{
  ℕ, ◌≤◌, String, ◌≡◌, refl, sym, ap, subst, ◌∙◌, inl, inr, arith, ◌==◌, eq_refl, if◌then◌else◌,
  Bool, true, false, Bool-cases, some, List, [], ◌∷◌, ◌++◌, map, any, find, All, All-append,
  map_option,
}
use daemon_supply_chain.Common.Keyed.{
  Key, Keyed, Keyed-KeyedIn, has_key, at_key, found-All, find-map, find-has_key, Keyed-map,
  Keyed-snoc, All-map,
}
use daemon_supply_chain.Stock.{OutboundShipment, Transportation}
use daemon_supply_chain.Stock.Capacity.{same_text}

abbrev pub by_shipment : Key OutboundShipment String
by_shipment = record {
  key = λ row. row.shipment_id;
  same = ◌==◌;
  same_eq = same_text;
  same_self = eq_refl;
}

abbrev pub by_transport : Key Transportation String
by_transport = record {
  key = λ row. row.shipment_id;
  same = ◌==◌;
  same_eq = same_text;
  same_self = eq_refl;
}

-- The shipment of a transportation is there, has its status, and is past READY.
pub record IsMatched (ships : List OutboundShipment) (t : Transportation) : Type 0 where
  pub shipment : OutboundShipment
  pub found : find (has_key by_shipment t.shipment_id) ships ≡ some shipment
  pub same_status : shipment.shipment_status ≡ t.status
  pub past_ready : (t.status == "READY") ≡ false

-- No two shipments have one id, no two transportations are of one shipment, and all are matched.
pub record IsLockstep (ships : List OutboundShipment) (transports : List Transportation)
    : Type 0 where
  pub keyed : Keyed by_shipment ships
  pub one_each : Keyed by_transport transports
  pub matched : All (IsMatched ships) transports

-- The place of a status on the way from the dock to the customer.
unfoldable pub rank : String → ℕ
rank status =
    if status == "READY"
    then 1
    else if status == "ASSIGNED"
    then 2
    else if status == "PICKED_UP"
    then 3
    else if status == "IN_TRANSIT"
    then 4
    else if status == "DELIVERED"
    then 5
    else 0

-- The shipments stay, in their order, and none goes back; there may be new ones.
abbrev pub IsForward : List OutboundShipment → List OutboundShipment → Type 0
IsForward [] ys = Unit
IsForward (x ∷ xs) [] = ⊥
IsForward (x ∷ xs) (y ∷ ys) =
    (x.shipment_id ≡ y.shipment_id)
    × (rank x.shipment_status ≤ rank y.shipment_status)
    × IsForward xs ys

pub IsForward-refl : (xs : List OutboundShipment) → IsForward xs xs
IsForward-refl [] = tt
IsForward-refl (x ∷ xs) = (refl, omega arith, IsForward-refl xs)

pub IsForward-trans :
    (xs ys zs : List OutboundShipment) → IsForward xs ys → IsForward ys zs → IsForward xs zs
IsForward-trans [] ys zs h k = tt
IsForward-trans (x ∷ xs) [] zs h k = absurd h
IsForward-trans (x ∷ xs) (y ∷ ys) [] h k = absurd k
IsForward-trans (x ∷ xs) (y ∷ ys) (z ∷ zs) h k =
    (h.0 ∙ k.0, omega (arith, h.1, k.1), IsForward-trans xs ys zs h.2 k.2)

pub IsForward-append : (xs ys : List OutboundShipment) → IsForward xs (xs ++ ys)
IsForward-append [] ys = tt
IsForward-append (x ∷ xs) ys = (refl, omega arith, IsForward-append xs ys)

IsForward-map :
    (h : OutboundShipment → OutboundShipment) (xs : List OutboundShipment)
    → All
        (λ x.
          (x.shipment_id ≡ (h x).shipment_id)
          × (rank x.shipment_status ≤ rank (h x).shipment_status))
        xs
    → IsForward xs (map h xs)
IsForward-map h [] k = tt
IsForward-map h (x ∷ xs) k = (k.0.0, k.0.1, IsForward-map h xs k.1)

every : {A : Type 0} (P : A → Type 0) → ((x : A) → P x) → (xs : List A) → All P xs
every P h [] = tt
every P h (x ∷ xs) = (h x, every P h xs)

-- The update of a shipment and of its transportation to one status.
module _ (ships : List OutboundShipment) (transports : List Transportation)
    (lock : IsLockstep ships transports) (id : String) (x : OutboundShipment)
    (found : find (has_key by_shipment id) ships ≡ some x) (f : OutboundShipment → OutboundShipment)
    (same_f : (r : OutboundShipment) → (f r).shipment_id ≡ r.shipment_id)
    (g : Transportation → Transportation)
    (same_g : (r : Transportation) → (g r).shipment_id ≡ r.shipment_id) (status : String)
    (past : (status == "READY") ≡ false)
    (f_status : (r : OutboundShipment) → (f r).shipment_status ≡ status)
    (g_status : (r : Transportation) → (g r).status ≡ status)
    (up : rank x.shipment_status ≤ rank status) where
  abbrev ships' : List OutboundShipment
  ships' = map (at_key by_shipment id f) ships

  -- What an id finds after the update.
  found_after :
      (j : String) (r : OutboundShipment)
      → find (has_key by_shipment j) ships ≡ some r
      → find (has_key by_shipment j) ships' ≡ some (at_key by_shipment id f r)
  found_after j r h =
      find-map by_shipment id f same_f j ships ∙ ap (map_option (at_key by_shipment id f)) h

  hit : has_key by_shipment id x ≡ true
  hit = find-has_key by_shipment id ships x found

  found_moved : find (has_key by_shipment id) ships' ≡ some (f x)
  found_moved = rw hit at (found_after id x found)

  moved_one :
      (t : Transportation) → IsMatched ships t → IsMatched ships' (at_key by_transport id g t)
  moved_one t h = elim (Bool-cases (has_key by_transport id t)) [
    | inl same ↦ rw same (record {
      shipment = f x;
      found =
          subst (λ j. find (has_key by_shipment j) ships' ≡ some (f x))
            (sym (same_text t.shipment_id id same) ∙ sym (same_g t)) found_moved;
      same_status = f_status x ∙ sym (g_status t);
      past_ready = rw (g_status t) past;
    })
    | inr other ↦
        let its : h.shipment.shipment_id ≡ t.shipment_id =
          same_text _ _ (find-has_key by_shipment t.shipment_id ships h.shipment h.found) in
        let miss : has_key by_shipment id h.shipment ≡ false = rw its other in
        rw other (record {
          shipment = h.shipment;
          found = rw miss at (found_after t.shipment_id h.shipment h.found);
          same_status = h.same_status;
          past_ready = h.past_ready;
        })
  ]

  move-IsLockstep : IsLockstep ships' (map (at_key by_transport id g) transports)
  move-IsLockstep = record {
    keyed = Keyed-map by_shipment id f same_f ships lock.keyed;
    one_each = Keyed-map by_transport id g same_g transports lock.one_each;
    matched =
        All-map (IsMatched ships) (IsMatched ships') (at_key by_transport id g) transports
          (every (λ t. IsMatched ships t → IsMatched ships' (at_key by_transport id g t)) moved_one
            transports)
          lock.matched;
  }

  move-IsForward : IsForward ships ships'
  move-IsForward = IsForward-map (at_key by_shipment id f) ships (
      found-All by_shipment
        (λ r.
          (r.shipment_id ≡ (at_key by_shipment id f r).shipment_id)
          × (rank r.shipment_status ≤ rank (at_key by_shipment id f r).shipment_status))
        id ships x found ships (Keyed-KeyedIn by_shipment ships lock.keyed)
        (λ r miss. rw miss (refl, omega arith)) (rw hit (sym (same_f x), rw (f_status x) up)))

  -- They stay in step, no shipment goes back, and the shipment is found with its new status.
  pub move :
      IsLockstep ships' (map (at_key by_transport id g) transports)
      × IsForward ships ships'
      × (find (has_key by_shipment id) ships' ≡ some (f x))
  move = (move-IsLockstep, move-IsForward, found_moved)

-- A shipment that is ready has no transportation.
pub none_ready :
    (ships : List OutboundShipment) (id : String) (x : OutboundShipment)
    → find (has_key by_shipment id) ships ≡ some x
    → (x.shipment_status == "READY") ≡ true
    → (ts : List Transportation) → All (IsMatched ships) ts
    → any (has_key by_transport id) ts ≡ false
none_ready ships id x found ready [] h = refl
none_ready ships id x found ready (t ∷ ts) h = elim (Bool-cases (has_key by_transport id t)) [
  | inr other ↦ rw other (none_ready ships id x found ready ts h.1)
  | inl same ↦
      let here : find (has_key by_shipment id) ships ≡ some h.0.shipment =
        subst (λ j. find (has_key by_shipment j) ships ≡ some h.0.shipment)
          (same_text t.shipment_id id same) h.0.found in
      let equal : x ≡ h.0.shipment = ground (arith, here) in
      let its : x.shipment_status ≡ t.status =
        ap (λ (r : OutboundShipment). r.shipment_status) equal ∙ h.0.same_status in
      absurd (ground (arith, rw its at ready, h.0.past_ready))
]

-- One transportation more, for a shipment that has none.
pub add-IsLockstep :
    (ships : List OutboundShipment) (transports : List Transportation) (new : Transportation)
    → IsLockstep ships transports
    → any (has_key by_transport new.shipment_id) transports ≡ false
    → IsMatched ships new
    → IsLockstep ships (transports ++ new ∷ [])
add-IsLockstep ships transports new lock free matched = record {
  keyed = lock.keyed;
  one_each = Keyed-snoc by_transport new transports free lock.one_each;
  matched = All-append (IsMatched ships) transports (new ∷ []) lock.matched (matched, tt);
}

find-append :
    (q : OutboundShipment → Bool) (xs ys : List OutboundShipment) (x : OutboundShipment)
    → find q xs ≡ some x
    → find q (xs ++ ys) ≡ some x
find-append q [] ys x h = cc
find-append q (r ∷ xs) ys x h = elim (Bool-cases (q r)) [
  | inl passes ↦ rw passes (rw passes at h)
  | inr fails ↦ rw fails (find-append q xs ys x (rw fails at h))
]

-- One shipment more, with an id of its own.
pub insert-IsLockstep :
    (ships : List OutboundShipment) (transports : List Transportation) (new : OutboundShipment)
    → IsLockstep ships transports
    → any (has_key by_shipment new.shipment_id) ships ≡ false
    → IsLockstep (ships ++ new ∷ []) transports
insert-IsLockstep ships transports new lock free = record {
  keyed = Keyed-snoc by_shipment new ships free lock.keyed;
  one_each = lock.one_each;
  matched = still transports lock.matched;
}
  where
    still :
        (ts : List Transportation)
        → All (IsMatched ships) ts
        → All (IsMatched (ships ++ new ∷ [])) ts
    still [] h = tt
    still (t ∷ ts) h = (
      record {
        shipment = h.0.shipment;
        found =
            find-append (has_key by_shipment t.shipment_id) ships (new ∷ []) h.0.shipment h.0.found;
        same_status = h.0.same_status;
        past_ready = h.0.past_ready;
      },
      still ts h.1,
    )
