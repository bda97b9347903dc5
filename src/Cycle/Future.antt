-- ===== src/Cycle/Future.antt =====
-- master_simulator.py: the events that an execution asks for are put into the queue.
use daemon_supply_chain.Common.{
  ℕ, suc, String, Option, none, some, List, [], ◌∷◌, ◌++◌, ◌==◌, leb, if◌then◌else◌, elem,
  value_error, Result, ok, err,
}
use daemon_supply_chain.Common.Text.{upper}
use daemon_supply_chain.Values.{
  Value, text, time, Fields, get, truthy, set_default, ◌or◌, Texts, str, to_time,
}
use daemon_supply_chain.Values.Ids.{is_id}
use daemon_supply_chain.Queue.{pending, NewEvent, insert_future_event}
use daemon_supply_chain.Executor.State.{Env, Created, Exec, pure, lift, ◌>>=◌}
use daemon_supply_chain.Executor.Resolve.{future_time}

-- The candidates of `_resolve_canonical_aggregate_id`, by aggregate type.
unfoldable pub canonical_fields : String → List String
canonical_fields aggregate_type =
    if elem aggregate_type (
      "shipments" ∷ "shipment_transportation" ∷ "shipment_loading_events" ∷ "shipment_tracking"
      ∷ "shipment_checkpoints" ∷ [])
    then "shipment_id" ∷ "aggregate_id" ∷ "task_id" ∷ "inventory_id" ∷ "order_id" ∷ "po_id" ∷ []
    else if aggregate_type == "warehouse_tasks"
    then "task_id" ∷ "shipment_id" ∷ "aggregate_id" ∷ "inventory_id" ∷ "order_id" ∷ "po_id" ∷ []
    else if elem aggregate_type (
        "inventory" ∷ "inventory_locations" ∷ "inventory_allocations" ∷ "inventory_reservations"
        ∷ [])
    then "inventory_id" ∷ "task_id" ∷ "shipment_id" ∷ "aggregate_id" ∷ "order_id" ∷ "po_id" ∷ []
    else if aggregate_type == "purchase_orders"
    then "po_id" ∷ "aggregate_id" ∷ "shipment_id" ∷ "task_id" ∷ "inventory_id" ∷ "order_id" ∷ []
    else if aggregate_type == "orders"
    then "order_id" ∷ "aggregate_id" ∷ "shipment_id" ∷ "task_id" ∷ "inventory_id" ∷ "po_id" ∷ []
    else "aggregate_id" ∷ "shipment_id" ∷ "task_id" ∷ "inventory_id" ∷ "order_id" ∷ "po_id" ∷ []

unfoldable pub first_id : Texts → Fields → String → List String → String
first_id t payload explicit [] = if is_id (text explicit) then explicit else "SIM-ROOT"
first_id t payload explicit (f ∷ fs) =
    if is_id (get f payload) then str t (get f payload) else first_id t payload explicit fs

abbrev pub or_text : String → String → String
or_text s default = if s == "" then default else s

unfoldable pub resolve_canonical_aggregate_id : Texts → Created → Fields → String
resolve_canonical_aggregate_id t c payload =
    first_id t payload c.aggregate_id
      (canonical_fields (or_text c.aggregate_type "scheduled_events"))

-- `_as_utc(scheduled_time or base_time)`
abbrev pub scheduled_or : Texts → ℕ → Value → Result ℕ
scheduled_or t base_time v = if truthy v then or_raise (to_time t v) else ok base_time
  where
    or_raise : Option ℕ → Result ℕ
    or_raise none = err value_error
    or_raise (some n) = ok n

-- A time that is not after the base is replaced by a future one.
unfoldable pub coerce_time : Env → String → ℕ → Value → Exec ℕ
coerce_time env event_type base_time v = do
  scheduled_time ← lift (scheduled_or env.texts base_time v)
  if leb scheduled_time base_time then future_time env event_type base_time else pure scheduled_time

unfoldable pub coerce_payload : Created → ℕ → Fields
coerce_payload c scheduled_time =
    let p1 = set_default "correlation_id" (text c.correlation_id) c.payload in
    let p2 = set_default "event_scheduled_time" (time scheduled_time) p1 in
    set_default "priority" (text (or_text c.priority "MEDIUM"))
      (set_default "event_type" (text c.event_type) p2)

-- `_coerce_future_event`, at the time that it settles on. The created events carry a correlation id.
unfoldable pub coerce_future_event : Env → Created → ℕ → NewEvent
coerce_future_event env c scheduled_time =
    let payload = coerce_payload c scheduled_time in
    record {
      event_type = c.event_type;
      aggregate_type = or_text c.aggregate_type "scheduled_events";
      aggregate_id = resolve_canonical_aggregate_id env.texts c payload;
      correlation_id = c.correlation_id;
      payload = payload;
      scheduled_time = some scheduled_time;
      status = pending;
      event_id = none;
      priority =
          upper (str env.texts (text c.priority or (get "priority" payload or text "MEDIUM")));
      retry_count = 0;
      max_retry_count = 3;
      next_retry_time = none;
    }

pub record Scheduled : Type 0 where
  pub event_id : String
  pub event_type : String
  pub aggregate_type : String
  pub aggregate_id : String
  pub correlation_id : String
  pub scheduled_time : ℕ

unfoldable pub insert : Env → NewEvent → Exec String
insert env e s =
    let (id, q) = insert_future_event env.now (env.uuid s.drawn) e s.queue in
    (ok id, record s { queue = q; drawn = suc s.drawn })

unfoldable pub schedule_event : Env → ℕ → Created → Exec Scheduled
schedule_event env base_time c = do
  scheduled_time ← coerce_time env c.event_type base_time c.scheduled_time
  let e = coerce_future_event env c scheduled_time
  event_id ← insert env e
  pure (record {
    event_id = event_id;
    event_type = e.event_type;
    aggregate_type = e.aggregate_type;
    aggregate_id = e.aggregate_id;
    correlation_id = e.correlation_id;
    scheduled_time = scheduled_time;
  })

-- An event with no type is passed over.
unfoldable pub schedule_typed : Env → ℕ → Created → Exec (List Scheduled)
schedule_typed env base_time c =
    if c.event_type == "" then pure [] else (do s ← schedule_event env base_time c; pure (s ∷ []))

-- `_schedule_returned_events`
unfoldable pub schedule_returned_events : Env → ℕ → List Created → Exec (List Scheduled)
schedule_returned_events env base_time [] = pure []
schedule_returned_events env base_time (c ∷ cs) = do
  first ← schedule_typed env base_time c
  rest ← schedule_returned_events env base_time cs
  pure (first ++ rest)
