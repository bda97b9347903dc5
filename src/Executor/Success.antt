-- ===== src/Executor/Success.antt =====
-- event_executor.py: what becomes of an event whose handler returns.
use daemon_supply_chain.Common.{
  ℕ, ◌+◌, String, not, ◌&&◌, Option, none, some, List, [], ◌∷◌, ◌==◌, if◌then◌else◌, elem,
  type_error, failure, Result, ok, err,
}
use daemon_supply_chain.Common.Results.{◌>>=◌ as bind}
use daemon_supply_chain.Common.Text.{upper}
use daemon_supply_chain.Values.{
  Value, null, num, text, time, list, dict, Items, nil, item, Fields, end, get, has, put,
  set_default, truthy, ◌or◌, Texts, str,
}
use daemon_supply_chain.Queue.{Row, completed}
use daemon_supply_chain.Queue.Marks.{Change, update_event_aggregate_id}
use daemon_supply_chain.Executor.State.{
  Env, Created, Report, Exec, pure, lift, change, ◌>>=◌, ◌>>◌, write, mark, mark_execution,
  event_at,
}
use daemon_supply_chain.Executor.Failure.{get_default, int_or_raise}
use daemon_supply_chain.Executor.Prepare.{dict_or_empty}
use daemon_supply_chain.Executor.Resolve.{resolve_real_aggregate_id, build_default_next_event}
use daemon_supply_chain.Executor.Merge.{standardize, merge_result}

-- `standardized.get("shipment_id") or payload.get("shipment_id") or result.get("shipment_id")`: the
-- last is an AttributeError where the result is no dict.
unfoldable pub shipment_of : Value → Fields → Fields → Result Value
shipment_of (dict d) standardized payload =
    ok (get "shipment_id" standardized or (get "shipment_id" payload or get "shipment_id" d))
shipment_of _ standardized payload =
    let v = get "shipment_id" standardized or get "shipment_id" payload in
    if truthy v then ok v else err (failure "AttributeError")

-- The new id in the payload and in the row, and in the queue.
unfoldable pub adopt_id : ℕ → String → String → Fields → Exec Fields
adopt_id i event_id id payload = do
  let payload = put "aggregate_id" (text id) payload
  write i (λ r. record r { aggregate_id = id; payload = payload })
  change (λ s. record s { queue = update_event_aggregate_id event_id id s.queue })
  pure payload

-- A shipment takes the place of the purchase order that it came from.
unfoldable pub adopt_shipment : Env → ℕ → Row → Value → Fields → Fields → Exec Fields
adopt_shipment env i row result standardized payload =
    if row.event_type == "SupplierShipmentCreated"
    then (do
      shipment_id ← lift (shipment_of result standardized payload)
      if truthy shipment_id then take shipment_id else pure payload)
    else pure payload
  where
    take : Value → Exec Fields
    take shipment_id =
        let id = str env.texts shipment_id in
        let p1 = put "shipment_id" (text id) payload in
        let po_id = get "po_id" p1 or (get "aggregate_id" p1 or text row.aggregate_id) in
        adopt_id i row.event_id id (put "po_id" po_id p1)

unfoldable pub adopt_real : Env → ℕ → Row → Fields → Exec Fields
adopt_real env i row payload =
    let type = get "aggregate_type" payload or text row.aggregate_type in
    let fallback = text row.aggregate_id or get "aggregate_id" payload in
    let id = resolve_real_aggregate_id env.texts payload fallback (str env.texts type) in
    if not (elem id ("" ∷ "SIM-ROOT" ∷ "None" ∷ "null" ∷ [])) && not (id == row.aggregate_id)
    then adopt_id i row.event_id id payload
    else pure payload

-- `item.get("payload", {}).get("aggregate_id")`
unfoldable pub nested_aggregate_id : Fields → Result Value
nested_aggregate_id d = if has "payload" d then of_dict (get "payload" d) else ok null
  where
    of_dict : Value → Result Value
    of_dict (dict p) = ok (get "aggregate_id" p)
    of_dict _ = err (failure "AttributeError")

abbrev pub explicit_id : Fields → Fields → Value → Result Value
explicit_id d payload rest =
    if truthy (get "aggregate_id" d)
    then ok (get "aggregate_id" d)
    else bind (nested_aggregate_id d) (λ v. ok (v or (get "aggregate_id" payload or rest)))

-- The payload of a created event: its ids, and those that it inherits.
unfoldable pub complete_payload : Texts → String → String → String → Fields → Fields → Fields
complete_payload t correlation_id aggregate_id aggregate_type payload own =
    let p1 = set_default "correlation_id" (text correlation_id) own in
    let p2 =
      put "aggregate_type" (text aggregate_type) (put "aggregate_id" (text aggregate_id) p1) in
    let p3 =
      if has "shipment_id" payload && (aggregate_type == "shipments")
      then set_default "shipment_id" (text (str t (get "shipment_id" payload))) p2
      else p2 in
    if has "po_id" payload && elem aggregate_type ("shipments" ∷ "purchase_orders" ∷ [])
    then set_default "po_id" (text (str t (get "po_id" payload))) p3
    else p3

-- One created event. `row` has the ids as they stand by then.
unfoldable pub normalize_created : Env → Row → Fields → Fields → Result Created
normalize_created env row payload d =
    bind (explicit_id d payload (text row.aggregate_id or text "SIM-ROOT")) λ explicit.
      bind (dict_or_empty (get "payload" d)) λ own.
        let t = env.texts in
        let aggregate_type =
          str t (get "aggregate_type" d or (text row.aggregate_type or text "scheduled_events")) in
        let correlation_id = str t (get "correlation_id" d or text row.correlation_id) in
        let aggregate_id = str t explicit in
        ok (record {
          event_type = str t (get "event_type" d or (get "event_name" d or text row.event_type));
          aggregate_type = aggregate_type;
          aggregate_id = aggregate_id;
          correlation_id = correlation_id;
          payload = complete_payload t correlation_id aggregate_id aggregate_type payload own;
          priority = upper (str t (get "priority" d or (get "priority" payload or text "MEDIUM")));
          scheduled_time = get "scheduled_time" d or (get "execute_at" d or time env.now);
        })

-- What is no dict is passed over.
unfoldable pub normalize_items : Env → Row → Fields → Items → Result (List Created)
normalize_items env row payload nil = ok []
normalize_items env row payload (item (dict d) vs) =
    bind (normalize_created env row payload d)
      λ created. bind (normalize_items env row payload vs) λ rest. ok (created ∷ rest)
normalize_items env row payload (item _ vs) = normalize_items env row payload vs

-- A created event that is named by the default sequence, as the dict that the loop reads.
unfoldable pub created_dict : Created → Fields
created_dict c = put "priority" (text c.priority) (
    put "scheduled_time" c.scheduled_time (
      put "payload" (dict c.payload) (
        put "correlation_id" (text c.correlation_id) (
          put "aggregate_id" (text c.aggregate_id) (
            put "aggregate_type" (text c.aggregate_type)
              (put "event_name" (text c.event_type) (put "event_type" (text c.event_type) end)))))))

abbrev pub default_items : Option Created → Items
default_items none = nil
default_items (some c) = item (dict (created_dict c)) nil

-- What the loop over `created_events` runs through: the handler's, or the default where it named none.
-- A dict or a text gives keys or characters, which are passed over.
unfoldable pub created_items : Env → Row → Fields → Fields → Exec Items
created_items env row standardized payload =
    let named = get "created_events" standardized in
    if truthy named
    then lift (iterate named)
    else (do default ← build_default_next_event env row payload; pure (default_items default))
  where
    iterate : Value → Result Items
    iterate (list vs) = ok vs
    iterate (dict d) = ok nil
    iterate (text s) = ok nil
    iterate (time t) = ok nil
    iterate _ = err type_error

abbrev pub completed_payload : Row → ℕ → ℕ → Fields → Fields
completed_payload row completed_at retry_count payload =
    let p1 =
      put "event_processed_time" (time completed_at)
        (put "event_completed_time" (time completed_at) payload) in
    let p2 = put "retry_count" (num retry_count) (put "status" (text "COMPLETED") p1) in
    let p3 = put "priority" (get_default "priority" (text "MEDIUM") p2) p2 in
    put "correlation_id" (text row.correlation_id) p3

abbrev pub completed_change : ℕ → Fields → Change
completed_change completed_at payload = record {
  status = completed;
  processed_at = some completed_at;
  error_message = none;
  retry_count = none;
  next_retry_time = none;
  priority = get "priority" payload;
}

-- The lines from `event.payload = payload` on.
unfoldable pub record_completed : Env → ℕ → Row → ℕ → ℕ → Fields → List Created → Exec Report
record_completed env i row started completed_at payload created = do
  write i (λ r. record r {
    payload = payload;
    event_completed_time = some completed_at;
    status = completed;
  })
  mark_execution env row completed none (some started) (some completed_at)
  mark env row.event_id (completed_change completed_at payload)
  pure (record {
    event_id = row.event_id;
    event_type = row.event_type;
    status = completed;
    retry_count = none;
    max_retry_count = none;
    next_retry_time = none;
    error = none;
    created_events = created;
  })

-- The lines from `completed_at` on.
unfoldable pub complete : Env → ℕ → Row → ℕ → Fields → List Created → Exec Report
complete env i row started payload created = do
  let completed_at = started + env.latency
  retry_count ← lift (int_or_raise env.texts (get_default "retry_count" (num 0) payload))
  record_completed env i row started completed_at
      (completed_payload row completed_at retry_count payload) created

-- All that follows the return of the handler.
unfoldable pub on_success : Env → ℕ → Row → ℕ → Fields → Value → Exec Report
on_success env i row started payload result = do
  let standardized = standardize result
  let merged = merge_result env.texts result standardized payload
  shipped ← adopt_shipment env i row result standardized merged
  row ← event_at i
  real ← adopt_real env i row shipped
  row ← event_at i
  vs ← created_items env row standardized real
  created ← lift (normalize_items env row real vs)
  complete env i row started real created
