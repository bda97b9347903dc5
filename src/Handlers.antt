-- ===== src/Handlers.antt =====
-- simulator/event_handlers/base.py: what the handler of a generator makes of its result. The generator that a
-- reference names, its parameters and its results are parameters of the model.
pub mod Calls
pub mod Results
use daemon_supply_chain.Common.{
  ℕ, suc, String, Bool, true, false, not, ◌&&◌, ◌||◌, Option, none, some, List, [], ◌∷◌, ◌==◌,
  if◌then◌else◌, elem, Error, value_error, Result, ok, err,
}
use daemon_supply_chain.Common.Results.{◌>>=◌}
use daemon_supply_chain.Values.{
  Value, null, num, text, list, dict, Items, nil, item, Fields, end, field, get, has, put,
  set_default, truthy, is_some, ◌or◌, Texts, str,
}
use daemon_supply_chain.Values.Ids.{is_id}
use daemon_supply_chain.Executor.Prepare.{dict_or_empty}

-- A generator: the names of its parameters, less *args and **kwargs, and its three ways of being called.
pub record Generator : Type 0 where
  pub params : List String
  pub call : Result Value
  pub call_with : Fields → Result Value
  pub call_context : Fields → Result Value

-- The generator that takes the place of a reference that cannot be resolved.
abbrev pub empty_generator : Generator
empty_generator = record {
  params = [];
  call = ok (dict (field "created_events" (list nil) end));
  call_with = λ d. ok null;
  call_context = λ d. ok null;
}

-- `_resolve_generator`, with what the import of the reference gives.
unfoldable pub resolve_generator : Option Generator → Generator
resolve_generator none = empty_generator
resolve_generator (some g) = g

-- `_coerce_correlation_id`
unfoldable pub coerce_correlation_id : Texts → String → Fields → Fields → String
coerce_correlation_id t uuid context result =
    let value = get "correlation_id" context or get "correlation_id" result in
    if is_some value then str t value else uuid

-- The nested values of a source: of its inventory, or of the first item there that has the field.
unfoldable pub id_in_items : String → Items → Value
id_in_items name nil = null
id_in_items name (item (dict d) vs) =
    let rest = id_in_items name vs in if is_id (get name d) then get name d else rest
id_in_items name (item _ vs) = id_in_items name vs

unfoldable pub id_in_source : String → Fields → Value
id_in_source name source =
    if is_id (get name source) then get name source else nested (get "inventory" source)
  where
    nested : Value → Value
    nested (dict d) = if is_id (get name d) then get name d else null
    nested (list vs) = id_in_items name vs
    nested _ = null

-- `_coerce_id_value`; null where there is none.
unfoldable pub coerce_id_value : Fields → Fields → String → Value
coerce_id_value context payload name =
    let found = id_in_source name payload in
    if is_some found then found else id_in_source name context

unfoldable pub first_coerced : Texts → Fields → Fields → List String → String
first_coerced t context payload [] = "SIM-ROOT"
first_coerced t context payload (name ∷ names) =
    let value = coerce_id_value context payload name in
    let rest = first_coerced t context payload names in if is_some value then str t value else rest

-- `_coerce_aggregate_id`
unfoldable pub coerce_aggregate_id : Texts → Fields → Fields → String → String
coerce_aggregate_id t context result aggregate_id_field = first_coerced t context result (
    aggregate_id_field ∷ "aggregate_id" ∷ "po_id" ∷ "shipment_id" ∷ "order_id" ∷ "task_id"
    ∷ "inventory_id" ∷ "product_id" ∷ [])

-- A key is added to a payload that is not empty and lacks it.
abbrev pub add_missing : String → Value → Fields → Fields
add_missing key value end = end
add_missing key value d = set_default key value d

abbrev pub created_time : Fields → Value
created_time d =
    get "scheduled_time" d
    or (get "execute_at" d
        or (get "scheduled_at" d or (get "event_scheduled_time" d or get "event_time" d)))

-- The defaults that `_normalize_created_event` is given.
pub record Defaults : Type 0 where
  pub event_type : Value
  pub aggregate_type : Value
  pub correlation_id : Value
  pub aggregate_id : Value

abbrev pub or_retry_time : Fields → Value → Value
or_retry_time d v = if is_some v then v else get "scheduled_time" d or get "execute_at" d

-- `_normalize_created_event` of a dict, with its payload read.
unfoldable pub normalized_event : Texts → String → Defaults → Fields → Fields → Fields
normalized_event t uuid defaults d own =
    let type = get "event_type" d or (defaults.event_type or text "GeneratedEvent") in
    let aggregate_type = get "aggregate_type" d or defaults.aggregate_type in
    let aggregate_id =
      text (str t (get "aggregate_id" d or (defaults.aggregate_id or text "SIM-ROOT"))) in
    let correlation_id =
      text (str t (get "correlation_id" d or (defaults.correlation_id or text uuid))) in
    let payload =
      add_missing "aggregate_type" aggregate_type (
        add_missing "aggregate_id" aggregate_id
          (add_missing "correlation_id" correlation_id own)) in
    put "payload" (dict payload) (
      put "scheduled_time" (or_retry_time d (created_time d)) (
        put "correlation_id" correlation_id (
          put "aggregate_id" aggregate_id
            (put "aggregate_type" aggregate_type (put "event_type" type end)))))

unfoldable pub normalize_created_event : Texts → String → Defaults → Fields → Result Fields
normalize_created_event t uuid defaults d =
    dict_or_empty (get "payload" d) >>= λ own. ok (normalized_event t uuid defaults d own)

-- What the loop passes along with a dict.
abbrev pub own_defaults : Fields → Defaults
own_defaults d = record {
  event_type = get "event_type" d;
  aggregate_type = get "aggregate_type" d;
  correlation_id = get "correlation_id" d;
  aggregate_id = get "aggregate_id" d;
}

-- The loop over `raw_created`; what is no dict is passed over. A number is set aside for each item.
unfoldable pub normalize_all : Texts → (ℕ → String) → ℕ → Items → Result Items
normalize_all t uuid n nil = ok nil
normalize_all t uuid n (item (dict d) vs) =
    normalize_created_event t (uuid n) (own_defaults d) d >>= λ first.
    normalize_all t uuid (suc n) vs >>= λ rest. ok (item (dict first) rest)
normalize_all t uuid n (item _ vs) = normalize_all t uuid (suc n) vs

unfoldable pub raw_created : Fields → Items
raw_created payload = as_items (get "created_events" payload)
  where
    as_items : Value → Items
    as_items (list vs) = vs
    as_items (dict d) = item (dict d) nil
    as_items _ = nil
