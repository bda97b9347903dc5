-- ===== src/Handlers/Calls.antt =====
-- simulator/event_handlers/base.py: the call of the generator with its keyword arguments, and the handler
-- around it.
use daemon_supply_chain.Common.{
  ℕ, String, not, ◌&&◌, Option, none, some, List, [], ◌∷◌, ◌==◌, if◌then◌else◌, elem, value_error,
  Result, ok, err,
}
use daemon_supply_chain.Common.Results.{◌>>=◌}
use daemon_supply_chain.Values.{
  Value, num, text, list, dict, Items, Fields, end, field, get, has, put, set_default, truthy,
  is_some, ◌or◌, Texts, str,
}
use daemon_supply_chain.Values.Ids.{is_id}
use daemon_supply_chain.Executor.Prepare.{dict_or_empty}
use daemon_supply_chain.Handlers.{
  Generator, resolve_generator, coerce_id_value, normalize_all, raw_created,
}

-- The first block of `handle`, for PurchaseOrderCreated.
unfoldable pub check_purchase_order : Texts → Fields → Result Fields
check_purchase_order t context = dict_or_empty (get "payload" context) >>= λ event_payload.
    dict_or_empty (get "purchaseOrder" event_payload) >>= λ purchase_order.
    let event_id = get "aggregate_id" context in
    let payload_id = get "poId" purchase_order or get "po_id" event_payload in
    let resolved_id = event_id or payload_id in
    if truthy event_id && truthy payload_id && not (str t event_id == str t payload_id)
    then err value_error
    else if truthy resolved_id
    then ok (
        put "payload" (dict (put "po_id" (text (str t resolved_id)) event_payload))
          (put "aggregate_id" (text (str t resolved_id)) context))
    else ok context

-- The context and the payload behind the block on `aggregate_id_field`.
unfoldable pub share_id : String → Fields → Fields → Fields × Fields
share_id name context payload =
    if not (name == "") && is_id (get name payload)
    then (put "aggregate_id" (get name payload) (put name (get name payload) context), payload)
    else if not (name == "") && is_id (get name context)
    then (context, set_default name (get name context) payload)
    else (context, payload)

abbrev pub id_params : List String
id_params = "po_id" ∷ "shipment_id" ∷ "order_id" ∷ "task_id" ∷ "inventory_id" ∷ "allocation_id" ∷ []

-- The argument for one parameter; none where it is not passed.
unfoldable pub keyword_arg : Fields → Fields → String → Option Value
keyword_arg context payload name =
    if elem name ("event_context" ∷ "context" ∷ [])
    then some (dict context)
    else if is_some (get name context)
    then some (get name context)
    else if elem name id_params
    then of_value (coerce_id_value context payload name or get "aggregate_id" context)
    else if name == "count"
    then some (if has "count" context then get "count" context else num 1)
    else none
  where
    of_value : Value → Option Value
    of_value v = if is_some v then some v else none

unfoldable pub keyword_args : Fields → Fields → List String → Fields
keyword_args context payload [] = end
keyword_args context payload (name ∷ names) = elim (keyword_arg context payload name) [
  | some v ↦ field name v (keyword_args context payload names)
  | none ↦ keyword_args context payload names
]

unfoldable pub call_generator : Generator → Fields → Fields → Result Value
call_generator g context payload = by_params g.params
  where
    by_args : Fields → Result Value
    by_args end = g.call_context context
    by_args args = g.call_with args

    by_params : List String → Result Value
    by_params [] = g.call
    by_params names = by_args (keyword_args context payload names)

-- The dict that the handler returns.
unfoldable pub handler_result : Fields → Items → Value
handler_result payload created = dict (
    field "status" (text "SUCCESS")
      (field "created_events" (list created) (field "result" (dict payload) end)))

unfoldable pub check_context : Texts → String → Fields → Result Fields
check_context t event_type context =
    if event_type == "PurchaseOrderCreated" then check_purchase_order t context else ok context

-- The lines of `handle` from the result's dict on. The ids that the code coerces beside are used for items
-- that are no dicts alone, which are passed over.
unfoldable pub deliver : Texts → (ℕ → String) → Fields → Result Value
deliver t uuid returned = normalize_all t uuid 0 (raw_created returned) >>= λ created.
    ok (handler_result returned created)

unfoldable pub collect : Texts → (ℕ → String) → Value → Result Value
collect t uuid result = dict_or_empty result >>= deliver t uuid

unfoldable pub respond :
    Texts → (ℕ → String) → Option Generator → String → Fields → Fields → Result Value
respond t uuid reference aggregate_id_field checked own =
    let (context, payload) = share_id aggregate_id_field checked own in
    call_generator (resolve_generator reference) context payload >>= collect t uuid

unfoldable pub handle_checked :
    Texts → (ℕ → String) → Option Generator → String → Fields → Result Value
handle_checked t uuid reference aggregate_id_field checked =
    dict_or_empty (get "payload" checked) >>= respond t uuid reference aggregate_id_field checked

-- `handle`, which `build_handler` returns.
unfoldable pub handle :
    Texts → (ℕ → String) → Option Generator → String → String → Fields → Result Value
handle t uuid reference event_type aggregate_id_field event_context =
    check_context t event_type event_context >>= handle_checked t uuid reference aggregate_id_field
