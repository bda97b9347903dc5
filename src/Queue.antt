-- ===== src/Queue.antt =====
-- simulator/core/event_scheduler/event_queue.py, the in-memory queue (`memory_mode`). Its state files
-- are left out. Rows are only ever appended, so a row object is its position; `now` is what
-- `get_simulation_now()` returns, and `uuid` what the next `uuid.uuid4()` does.
pub mod Marks
pub mod Rows
pub mod Insert
pub mod Ready
pub mod Due
pub mod Mark
use daemon_supply_chain.Common.{
  ℕ, suc, String, Bool, true, false, ◌&&◌, ◌||◌, not, Option, none, some, List, [], ◌∷◌, ◌++◌, ltb,
  leb, nat_eq, ◌==◌, if◌then◌else◌, length, get_elem?, modify, filter, find, index_from, lookup,
  elem,
}
use daemon_supply_chain.Common.Text.{upper}
use daemon_supply_chain.Values.{
  Value, null, num, text, time, Fields, end, get, put, ◌or◌, truthy, Texts, str,
}

-- The statuses that the simulator writes; `started` stands in the execution log alone.
pub data Status : Type 0 where
  pending retry_scheduled started completed failed skipped : Status

-- One event; `event_name` always repeats `event_type`.
pub record Row : Type 0 where
  pub event_id : String
  pub event_type : String
  pub aggregate_type : String
  pub aggregate_id : String
  pub correlation_id : String
  pub payload : Fields
  pub status : Status
  pub scheduled_time : ℕ
  pub event_created_time : ℕ
  pub event_started_time : Option ℕ
  pub event_completed_time : Option ℕ
  pub event_scheduled_time : ℕ
  pub created_at : ℕ
  pub priority : String
  pub retry_count : ℕ
  pub max_retry_count : ℕ
  pub next_retry_time : Option ℕ
  pub last_error : Option String

pub record Entry : Type 0 where
  pub row : Row
  pub processed_at : ℕ

pub record Queue : Type 0 where
  pub rows : List Row
  pub history : List Entry
  pub current_ready_time : Option ℕ

abbrev pub empty : Queue
empty = record { rows = []; history = []; current_ready_time = none }

-- `status in {"PENDING", "RETRY_SCHEDULED"}`
abbrev pub is_waiting : Status → Bool
is_waiting pending = true
is_waiting retry_scheduled = true
is_waiting _ = false

-- `status in {"PENDING", "RETRY_SCHEDULED", "COMPLETED"}`
abbrev pub is_business : Status → Bool
is_business completed = true
is_business s = is_waiting s

-- `status in {"COMPLETED", "FAILED", "SKIPPED"}`
abbrev pub is_final : Status → Bool
is_final completed = true
is_final failed = true
is_final skipped = true
is_final _ = false

abbrev pub or_now : ℕ → Option ℕ → ℕ
or_now now none = now
or_now now (some t) = t

abbrev pub priority_order : List (String × ℕ)
priority_order = ("HIGH", 0) ∷ ("MEDIUM", 1) ∷ ("LOW", 2) ∷ []

-- `_priority_rank`: what is empty counts as MEDIUM, and so does what is unknown.
unfoldable pub priority_rank : Texts → Value → ℕ
priority_rank t priority =
    let name = upper (str t (priority or text "MEDIUM")) in
    elim (lookup name priority_order) [ some rank ↦ rank | none ↦ 1 ]

-- The arguments of `insert_future_event`.
pub record NewEvent : Type 0 where
  pub event_type : String
  pub aggregate_type : String
  pub aggregate_id : String
  pub correlation_id : String
  pub payload : Fields
  pub scheduled_time : Option ℕ
  pub status : Status
  pub event_id : Option String
  pub priority : String
  pub retry_count : ℕ
  pub max_retry_count : ℕ
  pub next_retry_time : Option ℕ

-- The two tests of the loop over the rows, either of which returns the row's id.
unfoldable pub is_duplicate : NewEvent → Row → Bool
is_duplicate e row =
    (row.correlation_id == e.correlation_id
      && (row.event_type == e.event_type && is_business row.status))
    || (row.aggregate_id == e.aggregate_id
        && (row.event_type == e.event_type && is_business row.status))

abbrev pub or_uuid : String → Option String → String
or_uuid uuid none = uuid
or_uuid uuid (some event_id) = if event_id == "" then uuid else event_id

unfoldable pub new_row : ℕ → String → NewEvent → Row
new_row now uuid e =
    let scheduled = or_now now e.scheduled_time in
    record {
      event_id = or_uuid uuid e.event_id;
      event_type = e.event_type;
      aggregate_type = e.aggregate_type;
      aggregate_id = e.aggregate_id;
      correlation_id = e.correlation_id;
      payload = e.payload;
      status = e.status;
      scheduled_time = scheduled;
      event_created_time = now;
      event_started_time = none;
      event_completed_time = none;
      event_scheduled_time = scheduled;
      created_at = now;
      priority = upper e.priority;
      retry_count = e.retry_count;
      max_retry_count = e.max_retry_count;
      next_retry_time = e.next_retry_time;
      last_error = none;
    }

-- In memory `_should_block_causal_insert` is false.
unfoldable pub insert_future_event : ℕ → String → NewEvent → Queue → String × Queue
insert_future_event now uuid e q = elim (find (is_duplicate e) q.rows) [
  | some row ↦ (row.event_id, q)
  | none ↦ let row = new_row now uuid e in (row.event_id, record q { rows = q.rows ++ row ∷ [] })
]

abbrev pub retry_due : ℕ → Status → Option ℕ → Bool
retry_due target retry_scheduled (some t) = leb t target
retry_due target _ _ = true

-- What `list_ready_events` lets through: `from_time` and `target` are inclusive, and a retry waits for
-- its own time too.
unfoldable pub is_ready : ℕ → Option ℕ → Row → Bool
is_ready target from_time row =
    is_waiting row.status
    && elim from_time [ none ↦ true | some t ↦ leb t row.scheduled_time ]
    && leb row.scheduled_time target
    && retry_due target row.status row.next_retry_time

abbrev pub Ref : Type 0
Ref = ℕ × Row

abbrev pub number_from : ℕ → List Row → List Ref
number_from n [] = []
number_from n (row ∷ rows) = (n, row) ∷ number_from (suc n) rows

-- The sort key, and its order.
pub record Key : Type 0 where
  pub rank : ℕ
  pub scheduled : ℕ

unfoldable pub key : Texts → Row → Key
key t row = record {
  rank = priority_rank t (text row.priority or get "priority" row.payload);
  scheduled = row.scheduled_time;
}

abbrev pub leb_key : Key → Key → Bool
leb_key a b = ltb a.rank b.rank || (nat_eq a.rank b.rank && leb a.scheduled b.scheduled)

-- `list.sort` is stable: an element goes in front of those behind it whose key is not smaller.
unfoldable pub insert_ref : Texts → Ref → List Ref → List Ref
insert_ref t x [] = x ∷ []
insert_ref t x (y ∷ ys) =
    if leb_key (key t x.1) (key t y.1) then x ∷ y ∷ ys else y ∷ insert_ref t x ys

unfoldable pub sort_refs : Texts → List Ref → List Ref
sort_refs t [] = []
sort_refs t (x ∷ xs) = insert_ref t x (sort_refs t xs)

unfoldable pub ready_refs : Texts → ℕ → Option ℕ → List Row → List Ref
ready_refs t target from_time rows =
    sort_refs t (filter (λ x. is_ready target from_time x.1) (number_from 0 rows))

unfoldable pub list_ready_events : Texts → ℕ → Option ℕ → Queue → List Ref × Queue
list_ready_events t target from_time q =
    (ready_refs t target from_time q.rows, record q { current_ready_time = some target })

-- The property `queue_size`.
unfoldable pub queue_size : ℕ → Queue → ℕ
queue_size now q =
    let reference_time = or_now now q.current_ready_time in
    length (filter (λ row. is_waiting row.status && leb row.scheduled_time reference_time) q.rows)
