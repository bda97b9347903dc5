-- ===== src/Executor/Resolve.antt =====
-- event_executor.py: the aggregate that an event is about, and the event that follows by default.
use daemon_supply_chain.Common.{
  ℕ, suc, String, true, ◌&&◌, Option, none, some, List, [], ◌∷◌, ◌==◌, if◌then◌else◌, lookup, elem,
}
use daemon_supply_chain.Common.Text.{upper}
use daemon_supply_chain.Timing.{get_future_event_time}
use daemon_supply_chain.Values.{
  Value, bool, text, time, dict, Fields, end, get, put, truthy, is_some, ◌or◌, Texts, str,
}
use daemon_supply_chain.Values.Ids.{is_valid_id, extract_nested_id}
use daemon_supply_chain.Queue.{Row}
use daemon_supply_chain.Executor.State.{Env, Created, Exec, pure, ◌>>=◌, draw}
use daemon_supply_chain.Executor.Sequence.{Next, next_event_sequence, domain_next_event_sequence}

-- The fields in which an aggregate's id is looked for.
unfoldable pub preferred_fields : String → List String
preferred_fields aggregate_type =
    if elem aggregate_type ("inventory" ∷ "inventory_locations" ∷ [])
    then "inventory_id" ∷ "aggregate_id" ∷ "task_id" ∷ "shipment_id" ∷ "po_id" ∷ "order_id" ∷ []
    else if aggregate_type == "warehouse_tasks"
    then "task_id" ∷ "aggregate_id" ∷ "order_id" ∷ "shipment_id" ∷ "po_id" ∷ "inventory_id" ∷ []
    else if aggregate_type == "shipments"
    then "shipment_id" ∷ "aggregate_id" ∷ "po_id" ∷ "task_id" ∷ "order_id" ∷ "inventory_id" ∷ []
    else if aggregate_type == "purchase_orders"
    then "po_id" ∷ "aggregate_id" ∷ "shipment_id" ∷ "task_id" ∷ "order_id" ∷ "inventory_id" ∷ []
    else if aggregate_type == "orders"
    then "order_id" ∷ "aggregate_id" ∷ "shipment_id" ∷ "task_id" ∷ "po_id" ∷ "inventory_id" ∷ []
    else "po_id" ∷ "shipment_id" ∷ "task_id" ∷ "order_id" ∷ "inventory_id" ∷ "aggregate_id" ∷ []

abbrev pub valid_text : Texts → Option String → Option String
valid_text t none = none
valid_text t (some s) = if is_valid_id t (text s) then some s else none

-- One field: the payload's own value, then one that is nested.
abbrev pub find_in : Texts → Fields → String → Option String
find_in t payload field_name =
    let value = get field_name payload in
    if is_valid_id t value
    then some (str t value)
    else valid_text t (extract_nested_id t field_name (dict payload))

unfoldable pub find_id : Texts → Fields → List String → Option String
find_id t payload [] = none
find_id t payload (f ∷ fs) = elim (find_in t payload f) [
  | some id ↦ some id
  | none ↦ find_id t payload fs
]

-- `_resolve_real_aggregate_id`; every caller gives an aggregate type that is not empty.
unfoldable pub resolve_real_aggregate_id : Texts → Fields → Value → String → String
resolve_real_aggregate_id t payload fallback aggregate_type =
    elim (find_id t payload (preferred_fields aggregate_type)) [
      | some id ↦ id
      | none ↦
          if is_valid_id t fallback
          then str t fallback
          else if is_valid_id t (get "aggregate_id" payload)
          then str t (get "aggregate_id" payload)
          else "SIM-ROOT"
    ]

-- The entry for an event: the domain's, where the payload carries a signal and the domain has one.
unfoldable pub next_config : String → Fields → Option Next
next_config event_type payload =
    if truthy (get "domain_signal" payload)
    then or_plain (lookup event_type domain_next_event_sequence)
    else lookup event_type next_event_sequence
  where
    or_plain : Option Next → Option Next
    or_plain none = lookup event_type next_event_sequence
    or_plain (some n) = some n

abbrev pub carry : String → Fields → Fields → Fields
carry key from to = let v = get key from in if is_some v then put key v to else to

-- The payload of the next event, in the order of its writes.
unfoldable pub next_payload : Next → String → String → ℕ → Fields → Fields
next_payload n aggregate_id correlation_id scheduled_time payload =
    let p1 = put "event_type" (text n.event_type) end in
    let p2 = put "aggregate_type" (text n.aggregate_type) p1 in
    let p3 = put "aggregate_id" (text aggregate_id) p2 in
    let p4 = put "correlation_id" (text correlation_id) p3 in
    let p5 = put "entity_type" (text n.entity_type) p4 in
    let p6 = put "current_state" (text n.current_state) p5 in
    let p7 = put "next_state" (text n.next_state) p6 in
    let p8 = put "priority" (text (upper n.priority)) p7 in
    let p9 = put "event_scheduled_time" (time scheduled_time) p8 in
    let p10 = put "status" (text "PENDING") p9 in
    let p11 = carry "shipment_id" payload (carry "po_id" payload p10) in
    let p12 =
      carry "inventory_id" payload (carry "order_id" payload (carry "task_id" payload p11)) in
    if truthy (get "domain_signal" payload)
    then put "domain" (get "domain" payload) (put "domain_signal" (bool true) p12)
    else p12

unfoldable pub next_aggregate_id : Texts → Row → Fields → Next → String
next_aggregate_id t row payload n =
    if n.event_type == "PackingTaskCreated" && is_valid_id t (get "order_id" payload)
    then str t (get "order_id" payload)
    else resolve_real_aggregate_id t payload (text row.aggregate_id or get "aggregate_id" payload)
        n.aggregate_type

unfoldable pub future_time : Env → String → ℕ → Exec ℕ
future_time env event_type base_time s =
    (get_future_event_time (draw env s) event_type base_time, record s { drawn = suc s.drawn })

-- `_build_default_next_event`. The row has its correlation id by then.
unfoldable pub build_default_next_event : Env → Row → Fields → Exec (Option Created)
build_default_next_event env row payload = build (next_config row.event_type payload)
  where
    build : Option Next → Exec (Option Created)
    build none = pure none
    build (some n) = do
      scheduled_time ← future_time env n.event_type row.scheduled_time
      let aggregate_id = next_aggregate_id env.texts row payload n
      pure (
          some (record {
            event_type = n.event_type;
            aggregate_type = n.aggregate_type;
            aggregate_id = aggregate_id;
            correlation_id = row.correlation_id;
            payload = next_payload n aggregate_id row.correlation_id scheduled_time payload;
            priority = upper n.priority;
            scheduled_time = time scheduled_time;
          }))
