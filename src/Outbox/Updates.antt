-- ===== src/Outbox/Updates.antt =====
-- simulator/core/event_scheduler/event_queue.py without `memory_mode`: the updates of event_outbox, with
-- the id of an aggregate and the status after an attempt.
use daemon_supply_chain.Common.{
  ℕ, String, Bool, true, false, not, ◌&&◌, Option, none, some, [], ◌∷◌, ◌==◌, if◌then◌else◌, any,
  find, map, elem, Result, ok, err,
}
use daemon_supply_chain.Common.Text.{upper}
use daemon_supply_chain.Values.{Value, null, num, text, time, Fields, has, put, is_some, Texts, str}
use daemon_supply_chain.Queue.{Status, pending, retry_scheduled, or_now}
use daemon_supply_chain.Queue.Marks.{Change}
use daemon_supply_chain.Outbox.{OutboxRow, Table, same_cause, has_event_id, unique_violation}

-- `UPDATE event_outbox … WHERE event_id = …`: the row leaves and comes back changed, unless the partial
-- index has another row for its cause.
abbrev pub update_rows : (OutboxRow → OutboxRow) → String → Table → Table
update_rows f event_id = map (λ row. if has_event_id event_id row then f row else row)

unfoldable pub update_row : (OutboxRow → OutboxRow) → OutboxRow → Table → Result (Unit {0}) × Table
update_row f row table =
    if any (λ other. not (has_event_id row.event_id other) && same_cause (f row) other) table
    then (err unique_violation, table)
    else (ok tt, update_rows f row.event_id table)

-- Another row of the type has the aggregate id.
abbrev pub is_taken : OutboxRow → String → OutboxRow → Bool
is_taken row aggregate_id other =
    other.event_type == row.event_type
    && other.aggregate_id == aggregate_id
    && not (other.event_id == row.event_id)

-- `update_event_aggregate_id`
unfoldable pub update_outbox_aggregate_id :
    String → String → Fields → Table → Result (Unit {0}) × Table
update_outbox_aggregate_id event_id aggregate_id payload table =
    if elem aggregate_id ("" ∷ "SIM-ROOT" ∷ [])
    then (ok tt, table)
    else elim (find (has_event_id event_id) table) [
      | none ↦ (ok tt, table)
      | some row ↦
          if any (is_taken row aggregate_id) table
          then (ok tt, table)
          else update_row
              (λ r. record r {
                aggregate_id = aggregate_id;
                payload = put "aggregate_id" (text aggregate_id) payload;
              })
              row table
    ]

abbrev pub is_retry : Status → Bool
is_retry retry_scheduled = true
is_retry _ = false

abbrev pub status_text : Status → String
status_text pending = "PENDING"
status_text retry_scheduled = "RETRY_SCHEDULED"
status_text Status.started = "STARTED"
status_text Status.completed = "COMPLETED"
status_text Status.failed = "FAILED"
status_text Status.skipped = "SKIPPED"

-- The next retry in the payload, and the status with it.
abbrev pub put_next_retry : Change → Fields → Fields
put_next_retry c p = by_time c.next_retry_time
  where
    cleared : Fields
    cleared =
        if has "next_retry_time" p && is_retry c.status then put "next_retry_time" null p else p

    by_time : Option ℕ → Fields
    by_time none = cleared
    by_time (some at) =
        let p' = put "event_scheduled_time" (time at) (put "next_retry_time" (time at) p) in
        if is_retry c.status then put "status" (text (status_text c.status)) p' else p'

abbrev pub put_error_text : Option String → Fields → Fields
put_error_text none p = p
put_error_text (some m) p = put "last_error" (text m) p

abbrev pub put_retry_count : Option ℕ → Fields → Fields
put_retry_count none p = p
put_retry_count (some n) p = put "retry_count" (num n) p

abbrev pub put_priority : Texts → Value → Fields → Fields
put_priority t v p = if is_some v then put "priority" (text (upper (str t v))) p else p

unfoldable pub marked_payload : Texts → Change → Fields → Fields
marked_payload t c p =
    put_next_retry c
      (put_priority t c.priority (put_retry_count c.retry_count (put_error_text c.error_message p)))

abbrev pub published_at_or : ℕ → Option ℕ → Option ℕ → Option ℕ
published_at_or now at (some old) = some old
published_at_or now at none = some (or_now now at)

unfoldable pub marked_row : Texts → ℕ → Change → OutboxRow → OutboxRow
marked_row t now c row = record row {
  status = c.status;
  payload = marked_payload t c row.payload;
  published_at = published_at_or now c.processed_at row.published_at;
}

-- `mark_event_status`; an id that the table does not have is passed over.
unfoldable pub mark_outbox_event : Texts → ℕ → String → Change → Table → Result (Unit {0}) × Table
mark_outbox_event t now event_id c table = elim (find (has_event_id event_id) table) [
  | none ↦ (ok tt, table)
  | some row ↦ update_row (marked_row t now c) row table
]
