-- ===== src/Stock/Queries.antt =====
-- The statements that several generators of stock share. A statement on a primary key that is taken
-- raises and changes no table; UPDATE changes every row that its condition names. Where rows tie in an
-- ORDER BY, they come in the order of the table.
use daemon_supply_chain.Common.{
  ℕ, zero, suc, String, ◌==◌, nat_eq, leb, if◌then◌else◌, ◌||◌, Bool, true, false, Option, none,
  some, List, [], ◌∷◌, ◌++◌, map, any, ok, err,
}
use daemon_supply_chain.Common.Stateful.{Stateful, change}
use daemon_supply_chain.Common.Integers.{ℤ, pos, negsuc}
use daemon_supply_chain.Values.{Value, null, num, text, Items, nil, item, dict, Fields}
use daemon_supply_chain.Ids.{Sequences}
use daemon_supply_chain.Outbox.{unique_violation, publish_event}
use daemon_supply_chain.Stock.{
  Inventory, Allocation, Reservation, Transaction, Task, PackingTask, ReceivingTask, CountTask,
  Shipment, ShipmentItem, Package, Worker, Location, Db, Env,
}

-- `if order_id:`
abbrev pub given : Option String → Option String
given none = none
given (some s) = if s == "" then none else some s

module _ {ℓ} {A : Type ℓ} where
  -- `LIMIT 1`
  abbrev pub first : List A → Option A
  first [] = none
  first (x ∷ xs) = some x

  -- The element at a position, and the last one past the end.
  abbrev pub nth_from : A → List A → ℕ → A
  nth_from x [] n = x
  nth_from x (y ∷ ys) zero = x
  nth_from x (y ∷ ys) (suc n) = nth_from y ys n

  -- `ORDER BY random() LIMIT 1`, at the position that was drawn.
  abbrev pub one_of : ℕ → List A → Option A
  one_of n [] = none
  one_of n (x ∷ xs) = some (nth_from x xs n)

  abbrev pub is_empty : List A → Bool
  is_empty [] = true
  is_empty (x ∷ xs) = false

  abbrev pub items_of : (A → Fields) → List A → Items
  items_of f [] = nil
  items_of f (x ∷ xs) = item (dict (f x)) (items_of f xs)

abbrev pub text_or_null : Option String → Value
text_or_null none = null
text_or_null (some s) = text s

abbrev pub max_nat : ℕ → ℕ → ℕ
max_nat a b = if leb a b then b else a

-- `max` with a time that may be missing.
abbrev pub max_time : Option ℕ → ℕ → ℕ
max_time none b = b
max_time (some a) b = max_nat a b

-- The order of `ORDER BY` on a column of times: rows with no time come last.
abbrev pub time_le : Option ℕ → Option ℕ → Bool
time_le _ none = true
time_le none (some b) = false
time_le (some a) (some b) = leb a b

abbrev pub has_inventory_id : ℕ → Inventory → Bool
has_inventory_id id row = nat_eq row.inventory_id id

abbrev pub has_allocation_id : String → Allocation → Bool
has_allocation_id id row = row.allocation_id == id

abbrev pub has_task_id : String → Task → Bool
has_task_id id row = row.task_id == id

-- `UPDATE inventory … WHERE inventory_id = …`
abbrev pub update_inventory : ℕ → (Inventory → Inventory) → Stateful Db (Unit {0})
update_inventory id f = change (λ s. record s {
  inventory = map (λ row. if has_inventory_id id row then f row else row) s.inventory;
})

abbrev pub update_allocation : String → (Allocation → Allocation) → Stateful Db (Unit {0})
update_allocation id f = change (λ s. record s {
  allocations = map (λ row. if has_allocation_id id row then f row else row) s.allocations;
})

abbrev pub update_task : String → (Task → Task) → Stateful Db (Unit {0})
update_task id f =
    change
      (λ s. record s { tasks = map (λ row. if has_task_id id row then f row else row) s.tasks })

abbrev pub update_worker : String → (Worker → Worker) → Stateful Db (Unit {0})
update_worker id f =
    change (λ s. record s {
      workers = map (λ row. if row.worker_id == id then f row else row) s.workers;
    })

abbrev pub update_location : String → (Location → Location) → Stateful Db (Unit {0})
update_location id f = change (λ s. record s {
  locations = map (λ row. if row.location_id == id then f row else row) s.locations;
})

-- `INSERT INTO inventory_allocations`
unfoldable pub insert_allocation : Allocation → Stateful Db (Unit {0})
insert_allocation row s =
    if any (has_allocation_id row.allocation_id) s.allocations
    then (err unique_violation, s)
    else (ok tt, record s { allocations = s.allocations ++ row ∷ [] })

unfoldable pub insert_reservation : Reservation → Stateful Db (Unit {0})
insert_reservation row s =
    if any (λ old. old.reservation_id == row.reservation_id) s.reservations
    then (err unique_violation, s)
    else (ok tt, record s { reservations = s.reservations ++ row ∷ [] })

abbrev pub has_packing_id : String → PackingTask → Bool
has_packing_id id row = row.task_id == id

abbrev pub has_receiving_id : String → ReceivingTask → Bool
has_receiving_id id row = row.task_id == id

abbrev pub has_count_id : String → CountTask → Bool
has_count_id id row = row.task_id == id

abbrev pub is_task_id : String → Db → Bool
is_task_id id s =
    any (has_task_id id) s.tasks
    || any (has_packing_id id) s.packing_tasks
    || any (has_receiving_id id) s.receiving_tasks
    || any (has_count_id id) s.count_tasks

unfoldable pub insert_task : Task → Stateful Db (Unit {0})
insert_task row s =
    if is_task_id row.task_id s
    then (err unique_violation, s)
    else (ok tt, record s { tasks = s.tasks ++ row ∷ [] })

unfoldable pub insert_packing_task : PackingTask → Stateful Db (Unit {0})
insert_packing_task row s =
    if is_task_id row.task_id s
    then (err unique_violation, s)
    else (ok tt, record s { packing_tasks = s.packing_tasks ++ row ∷ [] })

unfoldable pub insert_receiving_task : ReceivingTask → Stateful Db (Unit {0})
insert_receiving_task row s =
    if is_task_id row.task_id s
    then (err unique_violation, s)
    else (ok tt, record s { receiving_tasks = s.receiving_tasks ++ row ∷ [] })

abbrev pub update_receiving_task : String → (ReceivingTask → ReceivingTask) → Stateful Db (Unit {0})
update_receiving_task id f = change (λ s. record s {
  receiving_tasks = map (λ row. if has_receiving_id id row then f row else row) s.receiving_tasks;
})

unfoldable pub insert_count_task : CountTask → Stateful Db (Unit {0})
insert_count_task row s =
    if is_task_id row.task_id s
    then (err unique_violation, s)
    else (ok tt, record s { count_tasks = s.count_tasks ++ row ∷ [] })

abbrev pub update_count_task : String → (CountTask → CountTask) → Stateful Db (Unit {0})
update_count_task id f = change (λ s. record s {
  count_tasks = map (λ row. if has_count_id id row then f row else row) s.count_tasks;
})

abbrev pub has_shipment_id : String → Shipment → Bool
has_shipment_id id row = row.shipment_id == id

abbrev pub update_shipment : String → (Shipment → Shipment) → Stateful Db (Unit {0})
update_shipment id f = change (λ s. record s {
  shipments = map (λ row. if has_shipment_id id row then f row else row) s.shipments;
})

abbrev pub update_shipment_item : ℕ → (ShipmentItem → ShipmentItem) → Stateful Db (Unit {0})
update_shipment_item id f = change (λ s. record s {
  shipment_items =
      map (λ row. if nat_eq row.shipment_item_id id then f row else row) s.shipment_items;
})

-- `INSERT INTO inventory` with its id from the sequence; `row` makes the row of an id.
unfoldable pub insert_inventory : (ℕ → Inventory) → Stateful Db ℕ
insert_inventory row s =
    let id = suc s.inventory_sequence in
    if any (has_inventory_id id) s.inventory
    then (err unique_violation, record s { inventory_sequence = id })
    else (ok id, record s { inventory = s.inventory ++ row id ∷ []; inventory_sequence = id })

-- An integer in a payload.
abbrev pub int_value : Env → ℤ → Value
int_value env (pos n) = num n
int_value env (negsuc n) = env.negative n

-- An id of core/ids.py, drawn in the transaction.
abbrev pub drawn_id : (Sequences → String × Sequences) → Stateful Db String
drawn_id next s = (ok (next s.sequences).0, record s { sequences = (next s.sequences).1 })

unfoldable pub insert_package : Package → Stateful Db (Unit {0})
insert_package row s =
    if any (λ old. old.package_id == row.package_id) s.packages
    then (err unique_violation, s)
    else (ok tt, record s { packages = s.packages ++ row ∷ [] })

abbrev pub update_packing_task : String → (PackingTask → PackingTask) → Stateful Db (Unit {0})
update_packing_task id f = change (λ s. record s {
  packing_tasks = map (λ row. if has_packing_id id row then f row else row) s.packing_tasks;
})

-- `UPDATE orders SET order_status = … WHERE order_id = …`
abbrev pub set_order_status : String → String → Stateful Db (Unit {0})
set_order_status id status = change (λ s. record s {
  orders = map (λ o. if o.order_id == id then record o { order_status = status } else o) s.orders;
})

-- `INSERT INTO inventory_transactions`; its key is a sequence.
abbrev pub insert_transaction : Transaction → Stateful Db (Unit {0})
insert_transaction row = change (λ s. record s { transactions = s.transactions ++ row ∷ [] })

-- A random text.
abbrev pub fresh_text : Env → Stateful Db String
fresh_text env s = (ok (env.fresh s.drawn), record s { drawn = suc s.drawn })

-- `random.randint`
abbrev pub randint : Env → ℕ → ℕ → Stateful Db ℕ
randint env lo hi s = (ok (env.randint s.drawn lo hi), record s { drawn = suc s.drawn })

-- The order of `ORDER BY … DESC NULLS LAST`.
abbrev pub time_ge : Option ℕ → Option ℕ → Bool
time_ge _ none = true
time_ge none (some b) = false
time_ge (some a) (some b) = leb b a

-- The order of `ORDER BY … DESC`: rows with no time come first.
abbrev pub time_desc : Option ℕ → Option ℕ → Bool
time_desc none _ = true
time_desc (some a) none = false
time_desc (some a) (some b) = leb b a

-- `(%s IS NULL OR correlation_id = %s)` with SIMULATION_CORRELATION_ID.
abbrev pub of_run : Env → String → Bool
of_run env correlation_id = elim env.simulation_correlation_id [
  | none ↦ true
  | some run ↦ correlation_id == run
]

-- `publish_event` in the transaction; a number is set aside for its id.
unfoldable pub publish : Env → String → String → String → String → Fields → Stateful Db String
publish env event_type aggregate_type aggregate_id correlation_id payload s =
    let published =
      publish_event env.now (env.fresh s.drawn) event_type aggregate_type aggregate_id
        correlation_id payload s.outbox in
    (published.0, record s { outbox = published.1; drawn = suc s.drawn })
