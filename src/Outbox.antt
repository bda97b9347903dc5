-- ===== src/Outbox.antt =====
-- simulator/core/outbox.py, and simulator/core/event_scheduler/event_queue.py without `memory_mode`:
-- the insertions into the table event_outbox. A statement that breaks one of the table's two unique indexes
-- raises and changes nothing. Where rows tie in `ORDER BY created_at`, the first in the table is taken.
pub mod Updates
pub mod Unique
use daemon_supply_chain.Common.{
  ℕ, String, Bool, true, false, not, ◌&&◌, ◌||◌, Option, none, some, List, [], ◌∷◌, ◌++◌, ◌==◌, leb,
  if◌then◌else◌, any, find, filter, map, elem, Error, failure, runtime_error, Result, ok, err,
}
use daemon_supply_chain.Common.Text.{upper}
use daemon_supply_chain.Values.{
  Value, null, num, text, time, dict, Fields, end, get, has, put, set_default, ◌or◌, is_some, Texts,
  str,
}
use daemon_supply_chain.Queue.{
  Status, pending, retry_scheduled, is_business, NewEvent, or_now, or_uuid,
}
use daemon_supply_chain.Queue.Marks.{Change}

pub record OutboxRow : Type 0 where
  pub event_id : String
  pub event_type : String
  pub aggregate_type : String
  pub aggregate_id : String
  pub correlation_id : String
  pub payload : Fields
  pub created_at : ℕ
  pub published_at : Option ℕ
  pub status : Status

abbrev pub Table : Type 0
Table = List OutboxRow

-- The partial unique index: the same four columns, both rows live.
unfoldable pub same_cause : OutboxRow → OutboxRow → Bool
same_cause a b =
    is_business a.status
    && is_business b.status
    && a.aggregate_type == b.aggregate_type
    && a.aggregate_id == b.aggregate_id
    && a.event_type == b.event_type
    && a.correlation_id == b.correlation_id

abbrev pub has_event_id : String → OutboxRow → Bool
has_event_id event_id row = row.event_id == event_id

abbrev pub unique_violation : Error
unique_violation = failure "UniqueViolation"

-- `INSERT INTO event_outbox`
unfoldable pub insert_row : OutboxRow → Table → Result (Unit {0}) × Table
insert_row row table =
    if any (has_event_id row.event_id) table || any (same_cause row) table
    then (err unique_violation, table)
    else (ok tt, table ++ row ∷ [])

-- `ORDER BY created_at ASC LIMIT 1`
unfoldable pub earliest : Table → Option OutboxRow
earliest [] = none
earliest (row ∷ rows) = elim (earliest rows) [
  | none ↦ some row
  | some other ↦ some (if leb row.created_at other.created_at then row else other)
]

-- The row that `publish_event` inserts.
unfoldable pub published_row : ℕ → String → String → String → String → String → Fields → OutboxRow
published_row now event_id event_type aggregate_type aggregate_id correlation_id payload = record {
  event_id = event_id;
  event_type = event_type;
  aggregate_type = aggregate_type;
  aggregate_id = aggregate_id;
  correlation_id = correlation_id;
  payload = payload;
  created_at = now;
  published_at = none;
  status = pending;
}

-- `publish_event` with its row: the insertion does nothing where the partial index has the cause.
unfoldable pub publish_row : OutboxRow → Table → Result String × Table
publish_row row table =
    if any (same_cause row) table
    then (existing (earliest (filter (same_cause row) table)), table)
    else inserted (insert_row row table)
  where
    existing : Option OutboxRow → Result String
    existing none = err runtime_error
    existing (some found) = ok found.event_id

    inserted : Result (Unit {0}) × Table → Result String × Table
    inserted (ok u, t) = (ok row.event_id, t)
    inserted (err e, t) = (err e, t)

unfoldable pub publish_event :
    ℕ → String → String → String → String → String → Fields → Table → Result String × Table
publish_event now uuid event_type aggregate_type aggregate_id correlation_id payload table =
    publish_row
      (published_row now uuid event_type aggregate_type aggregate_id correlation_id payload) table

-- `_should_block_causal_insert`: a shipment waits until its purchase order is approved. The status of
-- a purchase order is read from its own table.
unfoldable pub should_block_causal_insert : Texts → (String → Option String) → NewEvent → Bool
should_block_causal_insert t po_status e =
    if not (e.event_type == "SupplierShipmentCreated")
    then false
    else let po_id = get "po_id" e.payload or text e.aggregate_id in
      if no_id po_id then false else not (is_approved (po_status (str t po_id)))
  where
    no_id : Value → Bool
    no_id null = true
    no_id (text s) = elem s ("" ∷ "SIM-ROOT" ∷ [])
    no_id _ = false

    is_approved : Option String → Bool
    is_approved none = false
    is_approved (some s) = s == "APPROVED"

abbrev pub time_or_null : Option ℕ → Value
time_or_null none = null
time_or_null (some t) = time t

-- `payload_blob`
unfoldable pub payload_blob : ℕ → NewEvent → Fields
payload_blob now e =
    let p1 = set_default "event_created_time" (time now) e.payload in
    let p2 = put "event_scheduled_time" (time (or_now now e.scheduled_time)) p1 in
    let p3 =
      put "max_retry_count" (num e.max_retry_count) (put "retry_count" (num e.retry_count) p2) in
    let p4 = put "priority" (text (upper e.priority)) p3 in
    put "last_error" null (put "next_retry_time" (time_or_null e.next_retry_time) p4)

unfoldable pub future_row : ℕ → String → NewEvent → OutboxRow
future_row now uuid e = record {
  event_id = or_uuid uuid e.event_id;
  event_type = e.event_type;
  aggregate_type = e.aggregate_type;
  aggregate_id = e.aggregate_id;
  correlation_id = e.correlation_id;
  payload = payload_blob now e;
  created_at = now;
  published_at = none;
  status = e.status;
}

-- The two queries for a live row of the type: by correlation, then by aggregate.
abbrev pub by_correlation : NewEvent → OutboxRow → Bool
by_correlation e row =
    row.correlation_id == e.correlation_id
    && row.event_type == e.event_type
    && is_business row.status

abbrev pub by_aggregate : NewEvent → OutboxRow → Bool
by_aggregate e row =
    row.aggregate_id == e.aggregate_id && row.event_type == e.event_type && is_business row.status

unfoldable pub find_existing : NewEvent → Table → Option OutboxRow
find_existing e table = elim (earliest (filter (by_correlation e) table)) [
  | some row ↦ some row
  | none ↦ earliest (filter (by_aggregate e) table)
]

-- `insert_future_event` past the check of causality.
unfoldable pub insert_unless_existing :
    ℕ → String → NewEvent → Table → Result (Option String) × Table
insert_unless_existing now uuid e table = elim (find_existing e table) [
  | some row ↦ (ok (some row.event_id), table)
  | none ↦ inserted (insert_row (future_row now uuid e) table)
]
  where
    inserted : Result (Unit {0}) × Table → Result (Option String) × Table
    inserted (ok u, t) = (ok (some (or_uuid uuid e.event_id)), t)
    inserted (err x, t) = (err x, t)

unfoldable pub insert_outbox_event :
    Texts
    → (String → Option String)
    → ℕ
    → String
    → NewEvent
    → Table
    → Result (Option String) × Table
insert_outbox_event t po_status now uuid e table =
    if should_block_causal_insert t po_status e
    then (ok none, table)
    else insert_unless_existing now uuid e table
