-- ===== src/Executor/State.antt =====
-- event_executor.py: what an execution reads, keeps and returns.
use daemon_supply_chain.Common.{
  ℕ, suc, String, Bool, Option, none, some, List, [], ◌∷◌, ◌==◌, if◌then◌else◌, get_elem?, modify,
  Error, key_error, Result, ok, err,
}
use daemon_supply_chain.Values.{Value, Fields, Texts}
use daemon_supply_chain.Queue.{Status, Row, Queue}
use daemon_supply_chain.Queue.Marks.{Change, mark_event_status}

-- The clock, the fresh ids and the random numbers of one execution, by the number of the draw, and
-- EVENT_PROCESSING_LATENCY_SECONDS in microseconds.
pub record Env : Type 0 where
  pub texts : Texts
  pub now : ℕ
  pub uuid : ℕ → String
  pub randint : ℕ → ℕ → ℕ → ℕ
  pub latency : ℕ

-- What `_mark_execution` writes for an event; a later write replaces it.
pub record LogEntry : Type 0 where
  pub event_type : String
  pub aggregate_type : String
  pub aggregate_id : String
  pub correlation_id : String
  pub status : Status
  pub processed_at : ℕ
  pub error_message : Option String
  pub started_time : ℕ
  pub completed_time : Option ℕ

-- The executor in memory mode with its queue; `drawn` counts the ids and numbers drawn so far.
pub record Sim : Type 0 where
  pub queue : Queue
  pub log : List (String × LogEntry)
  pub drawn : ℕ

-- What a handler is given.
pub record Context : Type 0 where
  pub event_id : String
  pub event_type : String
  pub aggregate_type : String
  pub aggregate_id : String
  pub correlation_id : String
  pub scheduled_time : Value
  pub current_state : Value
  pub next_state : Value
  pub entity_type : Value
  pub payload : Fields

-- What a handler does: return a value, or raise TypeError or another exception with its text.
pub data Outcome : Type 0 where
  returns : Value → Outcome
  raises : String → Outcome
  raises_type_error : Outcome

-- What a handler is called with.
pub data Argument : Type 0 where
  nothing empty_dict : Argument
  context : Context → Argument

-- A handler with no parameters is called with nothing.
pub record Handler : Type 0 where
  pub takes_context : Bool
  pub call : Argument → Outcome

abbrev pub Registry : Type 0
Registry = String → Option Handler

-- An event that the execution asks for. `event_name` repeats the type and `execute_at` the time.
pub record Created : Type 0 where
  pub event_type : String
  pub aggregate_type : String
  pub aggregate_id : String
  pub correlation_id : String
  pub payload : Fields
  pub priority : String
  pub scheduled_time : Value

-- The dict that `execute` returns.
pub record Report : Type 0 where
  pub event_id : String
  pub event_type : String
  pub status : Status
  pub retry_count : Option ℕ
  pub max_retry_count : Option ℕ
  pub next_retry_time : Option ℕ
  pub error : Option String
  pub created_events : List Created

-- Code that may raise; what it wrote before stays written.
abbrev pub Exec : Type 0 → Type 0
Exec A = Sim → Result A × Sim

module _ {A : Type 0} where
  abbrev pub pure : A → Exec A
  pure a s = (ok a, s)

  abbrev pub raise : Error → Exec A
  raise e s = (err e, s)

  abbrev pub lift : Result A → Exec A
  lift r s = (r, s)

  abbrev pub gets : (Sim → A) → Exec A
  gets f s = (ok (f s), s)

abbrev pub change : (Sim → Sim) → Exec (Unit {0})
change f s = (ok tt, f s)

abbrev pub continue : {A B : Type 0} → (A → Exec B) → Result A → Exec B
continue f (ok a) s = f a s
continue f (err e) s = raise e s

infixl 5 ◌>>=◌ ◌>>◌
unfoldable pub ◌>>=◌ : {A B : Type 0} → Exec A → (A → Exec B) → Exec B
◌>>=◌ m f s = continue f (m s).0 (m s).1

unfoldable pub ◌>>◌ : {A B : Type 0} → Exec A → Exec B → Exec B
m >> k = m >>= λ _. k

-- `str(uuid.uuid4())`
unfoldable pub fresh : Env → Exec String
fresh env s = (ok (env.uuid s.drawn), record s { drawn = suc s.drawn })

-- `random.randint`, of the next draw.
unfoldable pub draw : Env → Sim → ℕ → ℕ → ℕ
draw env s lo hi = env.randint s.drawn lo hi

-- The event object at a position; a position that is in no row is no object.
unfoldable pub event_at : ℕ → Exec Row
event_at i s = elim (get_elem? s.queue.rows i) [
  | some row ↦ (ok row, s)
  | none ↦ (err key_error, s)
]

-- Write to the event object at a position.
unfoldable pub write : ℕ → (Row → Row) → Exec (Unit {0})
write i f = change (λ s. record s { queue = record s.queue { rows = modify s.queue.rows i f } })

-- A number is set aside for the id of a row that may have to be made, also where there is one.
unfoldable pub mark : Env → String → Change → Exec (Unit {0})
mark env event_id c s = (
  ok tt,
  record s {
    queue = mark_event_status env.texts env.now (env.uuid s.drawn) event_id c s.queue;
    drawn = suc s.drawn;
  },
)

abbrev pub put_log : String → LogEntry → List (String × LogEntry) → List (String × LogEntry)
put_log event_id e [] = (event_id, e) ∷ []
put_log event_id e ((k, old) ∷ rest) =
    if event_id == k then (event_id, e) ∷ rest else (k, old) ∷ put_log event_id e rest

-- `_mark_execution`
unfoldable pub mark_execution :
    Env → Row → Status → Option String → Option ℕ → Option ℕ → Exec (Unit {0})
mark_execution env row status error started completed =
    change (λ s. record s { log = put_log row.event_id entry s.log })
  where
    started_or_now : Option ℕ → ℕ
    started_or_now none = env.now
    started_or_now (some t) = t

    entry : LogEntry
    entry = record {
      event_type = row.event_type;
      aggregate_type = row.aggregate_type;
      aggregate_id = row.aggregate_id;
      correlation_id = row.correlation_id;
      status = status;
      processed_at = env.now;
      error_message = error;
      started_time = started_or_now started;
      completed_time = completed;
    }
