-- ===== src/Executor/Prepare.antt =====
-- event_executor.py: the ids of an event, the context of its handler, and the check of its step.
use Prim.Native.String.{◌++◌}
use daemon_supply_chain.Common.{
  ℕ, String, Bool, true, false, not, ◌&&◌, ◌||◌, Option, none, some, List, [], ◌∷◌, ◌==◌,
  if◌then◌else◌, any, lookup, elem, type_error, value_error, Result, ok, err,
}
use daemon_supply_chain.StateMachine.{validate_transition, infer_next_state, infer_entity_type}
use daemon_supply_chain.Values.{
  Value, null, text, dict, Fields, end, get, put, truthy, ◌or◌, Texts, str,
}
use daemon_supply_chain.Queue.{is_final, Row}
use daemon_supply_chain.Queue.Marks.{has_id}
use daemon_supply_chain.Executor.State.{
  Env, LogEntry, Sim, Context, Exec, ◌>>=◌, ◌>>◌, fresh, event_at, write,
}

abbrev pub missing_ids : List String
missing_ids = "" ∷ "None" ∷ "null" ∷ []

abbrev pub id_or_root : Fields → Value
id_or_root p =
    get "aggregate_id" p
    or (get "po_id" p
        or (get "shipment_id" p
            or (get "task_id" p
                or (get "order_id" p or (get "inventory_id" p or text "SIM-ROOT")))))

-- An event with no aggregate id takes the first id of its payload. An id is kept as its text.
unfoldable pub fill_aggregate_id : Texts → Row → Row
fill_aggregate_id t row =
    if elem row.aggregate_id missing_ids
    then (let id = str t (id_or_root row.payload) in
        record row { aggregate_id = id; payload = put "aggregate_id" (text id) row.payload })
    else row

unfoldable pub fill_correlation_id : String → Row → Row
fill_correlation_id uuid row =
    if elem row.correlation_id missing_ids
    then record row {
      correlation_id = uuid;
      payload = put "correlation_id" (text uuid) row.payload;
    }
    else row

-- The first lines of `_execute`.
unfoldable pub prepare : Env → ℕ → Exec Row
prepare env i = do
  uuid ← fresh env
  write i (λ row. fill_correlation_id uuid (fill_aggregate_id env.texts row))
  event_at i

abbrev pub log_final : Option LogEntry → Bool
log_final none = false
log_final (some e) = is_final e.status

-- `_already_completed`
unfoldable pub already_completed : String → Sim → Bool
already_completed event_id s =
    log_final (lookup event_id s.log)
    || any (λ row. has_id event_id row && is_final row.status) s.queue.rows

abbrev pub of_option : Option String → Value
of_option none = null
of_option (some s) = text s

-- `_build_handler_context`
unfoldable pub build_handler_context : Row → Context
build_handler_context row = record {
  event_id = row.event_id;
  event_type = row.event_type;
  aggregate_type = row.aggregate_type;
  aggregate_id = row.aggregate_id;
  correlation_id = row.correlation_id;
  scheduled_time = get "event_scheduled_time" row.payload;
  current_state = get "current_state" row.payload or get "state" row.payload;
  next_state = get "next_state" row.payload or of_option (infer_next_state row.event_type);
  entity_type =
      get "entity_type" row.payload
      or (of_option (infer_entity_type row.event_type) or text row.aggregate_type);
  payload = row.payload;
}

-- `dict(value or {})`
unfoldable pub dict_or_empty : Value → Result Fields
dict_or_empty (dict d) = ok d
dict_or_empty (text s) = if s == "" then ok end else err value_error
dict_or_empty v = if truthy v then err type_error else ok end

-- The two ids of a purchase order differ. An empty payload stands for the context, which has neither.
unfoldable pub ids_differ : Texts → Row → Fields → Result Bool
ids_differ t row payload = differ (dict_or_empty (get "purchaseOrder" payload))
  where
    differ : Result Fields → Result Bool
    differ (err e) = err e
    differ (ok purchase_order) =
        let payload_id = get "poId" purchase_order or get "po_id" payload in
        ok (
          not (row.aggregate_id == "")
          && truthy payload_id
          && not (row.aggregate_id == str t payload_id))

abbrev pub step_allowed : Texts → Row → Context → Bool
step_allowed t row c =
    if truthy c.current_state && truthy c.next_state
    then validate_transition (some (str t c.current_state)) (some (str t c.next_state))
        (some (str t (c.entity_type or text row.aggregate_type)))
    else true

abbrev pub transition_error : Texts → Row → Context → String
transition_error t row c =
    "Invalid state transition for "
    ++ row.event_type
    ++ ": "
    ++ str t c.current_state
    ++ " -> "
    ++ str t c.next_state

abbrev pub mismatch_error : String
mismatch_error = "PurchaseOrder ID mismatch between event and payload"

-- `_validate_state_transition`: the text of InvalidStateTransition, or none where the step may go on.
unfoldable pub validate_state_transition : Texts → Row → Context → Result (Option String)
validate_state_transition t row c =
    if truthy (get "domain_signal" c.payload)
    then ok none
    else if row.event_type == "PurchaseOrderCreated"
    then with_ids (ids_differ t row c.payload)
    else ok step
  where
    step : Option String
    step = if step_allowed t row c then none else some (transition_error t row c)

    with_ids : Result Bool → Result (Option String)
    with_ids (err e) = err e
    with_ids (ok true) = ok (some mismatch_error)
    with_ids (ok false) = ok step
