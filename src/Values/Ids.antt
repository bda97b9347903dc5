-- ===== src/Values/Ids.antt =====
-- Where an id is looked for in a payload (event_executor.py, `_is_valid_id` and
-- `_extract_nested_id`).
use daemon_supply_chain.Common.{
  String, Bool, true, false, not, Option, none, some, List, [], ◌∷◌, ◌==◌, if◌then◌else◌, elem,
}
use daemon_supply_chain.Common.Text.{strip}
use daemon_supply_chain.Values.{
  Value, null, text, list, dict, Items, nil, item, Fields, end, field, get, Texts, str,
}

abbrev pub no_ids : List String
no_ids = "" ∷ "SIM-ROOT" ∷ "None" ∷ "null" ∷ []

unfoldable pub is_valid_id : Texts → Value → Bool
is_valid_id t null = false
is_valid_id t value = not (elem (strip (str t value)) no_ids)

-- `value not in (None, "", "SIM-ROOT", "None", "null")`
unfoldable pub is_id : Value → Bool
is_id null = false
is_id (text s) = not (elem s no_ids)
is_id _ = true

abbrev pub nested_keys : List String
nested_keys =
    "inventory" ∷ "goods_received" ∷ "receiving_task" ∷ "picking" ∷ "shipment" ∷ "order" ∷ "po"
    ∷ "tasks" ∷ "items" ∷ []

-- The first id that a list of searches finds.
abbrev pub or_else : Option String → Option String → Option String
or_else (some s) other = some s
or_else none other = other

abbrev pub first : (String → Option String) → List String → Option String
first f [] = none
first f (k ∷ ks) = or_else (f k) (first f ks)

-- `_extract_nested_id`. `at_key` finds the value of one key of a dict and searches it, so that the
-- search is a recursion on the value.
unfoldable mutual
  pub extract_nested_id : Texts → String → Value → Option String
  extract_nested_id t field_name (dict d) =
      let here = get field_name d in
      let below = first (at_key t field_name d) nested_keys in
      if is_id here then some (str t here) else below
  extract_nested_id t field_name (list vs) = extract_from_items t field_name vs
  extract_nested_id t field_name _ = none

  pub extract_from_items : Texts → String → Items → Option String
  extract_from_items t field_name nil = none
  extract_from_items t field_name (item v vs) =
      or_else (extract_nested_id t field_name v) (extract_from_items t field_name vs)

  pub at_key : Texts → String → Fields → String → Option String
  at_key t field_name end key = none
  at_key t field_name (field j v rest) key =
      if key == j then extract_nested_id t field_name v else at_key t field_name rest key
