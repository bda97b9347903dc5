-- ===== src/Executor/Merge.antt =====
-- event_executor.py: what the payload takes over from the result of a handler.
use daemon_supply_chain.Common.{String, not, ◌&&◌, List, [], ◌∷◌, ◌==◌, if◌then◌else◌, elem}
use daemon_supply_chain.Values.{
  Value, text, list, dict, Items, nil, item, Fields, end, field, get, has, put, set_default,
  is_some, Texts, str,
}
use daemon_supply_chain.Values.Ids.{is_id}

-- `standardized`: a result that is no dict counts as a bare success.
unfoldable pub standardize : Value → Fields
standardize (dict d) =
    set_default "created_events" (list nil) (set_default "status" (text "SUCCESS") d)
standardize _ = put "created_events" (list nil) (put "status" (text "SUCCESS") end)

abbrev pub nested_id_keys : List String
nested_id_keys = "inventory_id" ∷ "task_id" ∷ "shipment_id" ∷ "po_id" ∷ "order_id" ∷ []

-- Copy the first id of a nested dict into the payload.
unfoldable pub copy_first_id : Texts → Fields → List String → Fields → Fields
copy_first_id t from [] payload = payload
copy_first_id t from (k ∷ ks) payload =
    if has k from && is_id (get k from)
    then put k (text (str t (get k from))) payload
    else copy_first_id t from ks payload

unfoldable pub copy_from_items : Texts → Items → Fields → Fields
copy_from_items t nil payload = payload
copy_from_items t (item (dict d) vs) payload =
    copy_from_items t vs (copy_first_id t d nested_id_keys payload)
copy_from_items t (item _ vs) payload = copy_from_items t vs payload

abbrev pub result_ids : List String
result_ids =
    "po_id" ∷ "shipment_id" ∷ "task_id" ∷ "order_id" ∷ "inventory_id" ∷ "allocation_id" ∷ []

-- One item of the result: the body of the loop over it.
unfoldable pub merge_item : Texts → String → Value → Fields → Fields
merge_item t key value payload =
    if key == "created_events"
    then payload
    else if not (is_some value)
    then payload
    else if elem key result_ids
    then put key (text (str t value)) payload
    else nested key value
  where
    nested : String → Value → Fields
    nested k (list vs) =
        if k == "inventory"
        then copy_from_items t vs (put "inventory" (list vs) payload)
        else payload
    nested k (dict d) =
        if k == "goods_received"
        then copy_first_id t d nested_id_keys (put "goods_received" (dict d) payload)
        else payload
    nested k _ = payload

unfoldable pub merge_items : Texts → Fields → Fields → Fields
merge_items t end payload = payload
merge_items t (field key value rest) payload = merge_items t rest (merge_item t key value payload)

abbrev pub merge_result : Texts → Value → Fields → Fields → Fields
merge_result t (dict d) standardized payload = merge_items t standardized payload
merge_result t _ standardized payload = payload
