-- ===== src/Queue/Marks.antt =====
-- simulator/core/event_scheduler/event_queue.py, the writes to the rows of the in-memory queue: the new
-- id of an aggregate and the status after an attempt.
use daemon_supply_chain.Common.{
  ℕ, String, Bool, Option, none, some, List, [], ◌∷◌, ◌++◌, ◌==◌, if◌then◌else◌, length, get_elem?,
  modify, index_from, elem,
}
use daemon_supply_chain.Common.Text.{upper}
use daemon_supply_chain.Values.{
  Value, null, num, text, time, Fields, end, get, put, ◌or◌, Texts, str,
}
use daemon_supply_chain.Queue.{Status, Row, Entry, Queue, is_final, or_now}

abbrev pub has_id : String → Row → Bool
has_id event_id row = row.event_id == event_id

abbrev pub rename : String → Row → Row
rename aggregate_id row = record row {
  aggregate_id = aggregate_id;
  payload = put "aggregate_id" (text aggregate_id) row.payload;
}

unfoldable pub update_event_aggregate_id : String → String → Queue → Queue
update_event_aggregate_id event_id aggregate_id q =
    if elem aggregate_id ("" ∷ "SIM-ROOT" ∷ [])
    then q
    else elim (index_from (has_id event_id) 0 q.rows) [
      | none ↦ q
      | some i ↦ record q { rows = modify q.rows i (rename aggregate_id) }
    ]

-- The arguments of `mark_event_status` behind the id; a priority of `None` is null.
pub record Change : Type 0 where
  pub status : Status
  pub processed_at : Option ℕ
  pub error_message : Option String
  pub retry_count : Option ℕ
  pub next_retry_time : Option ℕ
  pub priority : Value

abbrev pub or_zero : Option ℕ → ℕ
or_zero none = 0
or_zero (some n) = n

-- The row that `_ensure_memory_row` makes for an id that the queue does not have.
unfoldable pub unknown_row : Texts → ℕ → String → String → Change → Row
unknown_row t now uuid event_id c = record {
  event_id = event_id;
  event_type = "UNKNOWN";
  aggregate_type = "scheduled_events";
  aggregate_id = "SIM-ROOT";
  correlation_id = uuid;
  payload = end;
  status = c.status;
  scheduled_time = now;
  event_created_time = now;
  event_started_time = none;
  event_completed_time = none;
  event_scheduled_time = now;
  created_at = now;
  priority = upper (str t (c.priority or text "MEDIUM"));
  retry_count = or_zero c.retry_count;
  max_retry_count = 3;
  next_retry_time = c.next_retry_time;
  last_error = none;
}

unfoldable pub ensure_memory_row : Texts → ℕ → String → String → Change → List Row → List Row × ℕ
ensure_memory_row t now uuid event_id c rows = elim (index_from (has_id event_id) 0 rows) [
  | some i ↦ (rows, i)
  | none ↦ (rows ++ unknown_row t now uuid event_id c ∷ [], length rows)
]

abbrev pub put_error : Option String → Fields → Fields
put_error none p = p
put_error (some m) p = put "last_error" (text m) p

abbrev pub put_count : Option ℕ → Fields → Fields
put_count none p = p
put_count (some n) p = put "retry_count" (num n) p

abbrev pub put_retry : Option ℕ → Fields → Fields
put_retry none p = put "next_retry_time" null p
put_retry (some r) p = put "event_scheduled_time" (time r) (put "next_retry_time" (time r) p)

abbrev pub or_keep {ℓ} : {A : Type ℓ} → Option A → A → A
or_keep none old = old
or_keep (some new) old = new

abbrev pub or_old {ℓ} : {A : Type ℓ} → Option A → Option A → Option A
or_old none old = old
or_old (some new) old = some new

-- The writes to the row, in their order.
unfoldable pub mark_row : Texts → Change → Row → Row
mark_row t c row = record row {
  status = c.status;
  priority =
      upper (
        str t (c.priority or (text row.priority or (get "priority" row.payload or text "MEDIUM"))));
  event_completed_time = or_old c.processed_at row.event_completed_time;
  last_error = or_old c.error_message row.last_error;
  retry_count = or_keep c.retry_count row.retry_count;
  next_retry_time = c.next_retry_time;
  scheduled_time = or_keep c.next_retry_time row.scheduled_time;
  event_scheduled_time = or_keep c.next_retry_time row.event_scheduled_time;
  payload =
      put_retry c.next_retry_time (put_count c.retry_count (put_error c.error_message row.payload));
}

abbrev pub history_entry : ℕ → Change → Row → Entry
history_entry now c row = record { row = row; processed_at = or_now now c.processed_at }

-- Only a final status is written to the history.
abbrev pub entries : ℕ → Change → Option Row → List Entry
entries now c none = []
entries now c (some row) = if is_final c.status then history_entry now c row ∷ [] else []

unfoldable pub mark_event_status : Texts → ℕ → String → String → Change → Queue → Queue
mark_event_status t now uuid event_id c q =
    let (rows, i) = ensure_memory_row t now uuid event_id c q.rows in
    let marked = modify rows i (mark_row t c) in
    record q { rows = marked; history = q.history ++ entries now c (get_elem? marked i) }
