-- ===== src/Values.antt =====
-- The values that event payloads hold: what `json` and a Python dict literal give. A dict keeps its
-- keys in the order of their first write.
pub mod Ids
pub mod Laws
use Prim.Native.Nat.{digits}
use daemon_supply_chain.Common.{
  ℕ, String, Bool, true, false, not, Option, none, some, List, [], ◌∷◌, ◌==◌, if◌then◌else◌, nat_eq,
  elem,
}

-- `time t` is a timestamp, as a `datetime` or as its ISO text: t microseconds since the epoch, UTC.
mutual
  pub data Value : Type 0 where
    null : Value
    bool : Bool → Value
    num : ℕ → Value
    text : String → Value
    time : ℕ → Value
    list : Items → Value
    dict : Fields → Value

  pub data Items : Type 0 where
    nil : Items
    item : Value → Items → Items

  pub data Fields : Type 0 where
    end : Fields
    field : String → Value → Fields → Fields

-- `d.get(key)`: null where the key is missing.
unfoldable pub get : String → Fields → Value
get key end = null
get key (field j v rest) = if key == j then v else get key rest

-- `key in d`
unfoldable pub has : String → Fields → Bool
has key end = false
has key (field j v rest) = if key == j then true else has key rest

-- `d[key] = value`
unfoldable pub put : String → Value → Fields → Fields
put key value end = field key value end
put key value (field j v rest) =
    if key == j then field j value rest else field j v (put key value rest)

-- `d.setdefault(key, value)`
unfoldable pub set_default : String → Value → Fields → Fields
set_default key value d = if has key d then d else put key value d

-- What `bool(value)` says.
unfoldable pub truthy : Value → Bool
truthy null = false
truthy (bool b) = b
truthy (num n) = not (nat_eq n 0)
truthy (text s) = not (s == "")
truthy (time t) = true
truthy (list nil) = false
truthy (list (item v vs)) = true
truthy (dict end) = false
truthy (dict (field j v rest)) = true

-- `a or b`
infixr 30 ◌or◌
unfoldable pub ◌or◌ : Value → Value → Value
a or b = if truthy a then a else b

-- `value is not None`
unfoldable pub is_some : Value → Bool
is_some null = false
is_some _ = true

-- The standard library on values that this model does not spell out: the text of numbers, times and
-- containers, `int(text)` and `datetime.fromisoformat(text)`.
pub record Texts : Type 0 where
  pub show : Value → String
  pub parse_int : String → Option ℕ
  pub parse_time : String → Option ℕ

-- `str(value)`
unfoldable pub str : Texts → Value → String
str t null = "None"
str t (bool true) = "True"
str t (bool false) = "False"
str t (text s) = s
str t v = t.show v

-- `int(value)`; none where it raises.
unfoldable pub to_int : Texts → Value → Option ℕ
to_int t (num n) = some n
to_int t (bool true) = some 1
to_int t (bool false) = some 0
to_int t (text s) = t.parse_int s
to_int t _ = none

-- `datetime.fromisoformat(str(value))`; none where it raises.
unfoldable pub to_time : Texts → Value → Option ℕ
to_time t (time n) = some n
to_time t (text s) = t.parse_time s
to_time t _ = none
