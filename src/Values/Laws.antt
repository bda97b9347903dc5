-- ===== src/Values/Laws.antt =====
-- Laws of payload dicts.
use daemon_supply_chain.Common.{String, ◌≡◌, arith, eq_iff, ◌==◌, if◌then◌else◌}
use daemon_supply_chain.Values.{Value, Fields, end, field, get, put}

-- What a write does to every later read.
pub get-put :
    (key k : String) (value : Value) (d : Fields)
    → get k (put key value d) ≡ (if k == key then value else get k d)
unfolding get put
get-put key k value end = ground (arith, eq_iff k key)
get-put key k value (field j v rest) =
    ground (arith, eq_iff k key, eq_iff key j, eq_iff k j, get-put key k value rest)
