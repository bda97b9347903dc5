-- ===== src/Executor/Follow.antt =====
-- event_executor.py: the default sequence of events.
use daemon_supply_chain.Common.{
  ℕ, suc, ◌<◌, ◌≤◌, String, ◌≡◌, refl, inl, inr, Bool, true, none, some, List, [], ◌∷◌, arith, ltb,
  leb, Bool-cases, Option-cases, lookup, lookup-all, all, ltb→lt, leb→le,
}
use daemon_supply_chain.Values.{Fields, get, truthy}
use daemon_supply_chain.Executor.Sequence.{Next, next_event_sequence, domain_next_event_sequence}
use daemon_supply_chain.Executor.Resolve.{next_config}

-- How many default events may follow.
unfoldable ranks : List (String × ℕ)
ranks =
    ("PurchaseOrderCreated", 24)
    ∷ ("PurchaseOrderApproved", 23)
    ∷ ("SupplierShipmentCreated", 22)
    ∷ ("ASNReceived", 21)
    ∷ ("SupplierShipmentDelivered", 20)
    ∷ ("ReceivingTaskCreated", 19)
    ∷ ("ReceivingTaskStarted", 18)
    ∷ ("GoodsReceived", 17)
    ∷ ("StockIncreased", 16)
    ∷ ("InventoryPutaway", 15)
    ∷ ("OrderCreated", 14)
    ∷ ("OrderItemCreated", 13)
    ∷ ("InventoryAllocationCreated", 12)
    ∷ ("InventoryReserved", 11)
    ∷ ("PickingTaskCreated", 10)
    ∷ ("PickingTaskStarted", 9)
    ∷ ("PickingCompleted", 8)
    ∷ ("PackingTaskCreated", 7)
    ∷ ("PackingCompleted", 6)
    ∷ ("ShipmentReady", 5)
    ∷ ("CarrierAssigned", 4)
    ∷ ("VehicleAssigned", 2)
    ∷ ("ShipmentPickedUp", 1)
    ∷ ("CustomerOrderCreated", 12)
    ∷ ("PickingStarted", 9)
    ∷ ("PackingStarted", 7)
    ∷ ("Packed", 6)
    ∷ ("OutboundShipmentCreated", 5)
    ∷ ("TruckLoaded", 3)
    ∷ ("TruckDeparted", 2)
    ∷ ("ArrivedAtCustomer", 1)
    ∷ ("WorkerShiftStarted", 1)
    ∷ ("DemandForecastUpdated", 1)
    ∷ ("SeasonalDemandSpike", 1)
    ∷ ("HeavyWeatherCondition", 2)
    ∷ ("DelayOccurred", 1)
    ∷ []

unfoldable rank : String → ℕ
rank event_type = elim (lookup event_type ranks) [ some n ↦ n | none ↦ 0 ]

falls : String → Next → Bool
falls event n = ltb (rank n.event_type) (rank event)

plain_falls : all (λ e. falls e.0 e.1) next_event_sequence ≡ true
unfolding falls rank ranks next_event_sequence
plain_falls = refl

domain_falls : all (λ e. falls e.0 e.1) domain_next_event_sequence ≡ true
unfolding falls rank ranks domain_next_event_sequence
domain_falls = refl

module _ (event_type : String) (payload : Fields) (n : Next) where
  -- What holds of the entries of both tables holds of the one that is chosen.
  pub next_config-all :
      (p : String → Next → Bool)
      → all (λ e. p e.0 e.1) next_event_sequence ≡ true
      → all (λ e. p e.0 e.1) domain_next_event_sequence ≡ true
      → next_config event_type payload ≡ some n
      → p event_type n ≡ true
  unfolding next_config
  next_config-all p plain domain h = elim (Bool-cases (truthy (get "domain_signal" payload))) [
    | inr unsigned ↦
        lookup-all p event_type next_event_sequence n plain (rw (unsigned, next_config) at h)
    | inl signed ↦ elim (Option-cases (lookup event_type domain_next_event_sequence)) [
      | inl absent ↦
          lookup-all p event_type next_event_sequence n plain
            (rw (signed, absent, next_config) at h)
      | inr (m, found) ↦
          let same : some m ≡ some n = rw (signed, found, next_config) at h in
          lookup-all p event_type domain_next_event_sequence n domain (rw found same)
    ]
  ]

  next_config-falls : next_config event_type payload ≡ some n → rank n.event_type < rank event_type
  unfolding falls
  next_config-falls h =
      ltb→lt (rank n.event_type) (rank event_type)
        (next_config-all falls plain_falls domain_falls h)

is_small : String → ℕ → Bool
is_small event k = leb k 25

ranks_small : all (λ e. is_small e.0 e.1) ranks ≡ true
unfolding is_small ranks
ranks_small = refl

rank-le : (event_type : String) → rank event_type ≤ 25
unfolding rank is_small
rank-le event_type = elim (Option-cases (lookup event_type ranks)) [
  | inl absent ↦ rw (absent, rank) (ground arith)
  | inr (k, found) ↦
      rw (found, rank) (leb→le k 25 (lookup-all is_small event_type ranks k ranks_small found))
]

-- Default events that follow one another, whatever the payloads.
pub data Chain : String → ℕ → Type 0 where
  stop : {event_type : String} → Chain event_type 0
  step :
      {event_type : String} {k : ℕ} (payload : Fields) (n : Next)
      → next_config event_type payload ≡ some n
      → Chain n.event_type k
      → Chain event_type (suc k)

Chain-rank : {event_type : String} {k : ℕ} → Chain event_type k → k ≤ rank event_type
Chain-rank stop = ground arith
Chain-rank {event_type} (step payload n h chain) =
    omega (arith, Chain-rank chain, next_config-falls event_type payload n h)

-- At most 25 default events follow one another, whatever the event and the payloads.
pub Chain-le : {event_type : String} {k : ℕ} → Chain event_type k → k ≤ 25
Chain-le {event_type} chain = omega (arith, Chain-rank chain, rank-le event_type)
