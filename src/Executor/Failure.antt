-- ===== src/Executor/Failure.antt =====
-- event_executor.py: what becomes of an event whose handler raises.
use daemon_supply_chain.Common.{
  ℕ, ◌+◌, ◌*◌, ◌-◌, ◌^◌, String, Bool, Option, none, some, List, [], ◌∷◌, leb, if◌then◌else◌, any,
  type_error, value_error, Error, Result, ok, err,
}
use daemon_supply_chain.Common.Text.{lower, contains}
use daemon_supply_chain.Timing.{microseconds_per_minute}
use daemon_supply_chain.Values.{Value, num, text, time, Fields, get, has, put, Texts, to_int}
use daemon_supply_chain.Queue.{Status, retry_scheduled, failed, skipped, Row}
use daemon_supply_chain.Queue.Marks.{Change}
use daemon_supply_chain.Executor.State.{
  Env, Report, Exec, pure, lift, ◌>>=◌, ◌>>◌, write, mark, mark_execution,
}

abbrev pub noop_tokens : List String
noop_tokens =
    "already exists" ∷ "already completed" ∷ "already received" ∷ "already processed" ∷ "no started"
    ∷ "no arrived" ∷ "no created" ∷ "invalid input syntax for type bigint" ∷ []

unfoldable pub is_idempotent_noop : String → Bool
is_idempotent_noop error_text = any (contains (lower error_text)) noop_tokens

-- `_compute_retry_interval`, in minutes.
unfoldable pub compute_retry_interval : ℕ → ℕ
compute_retry_interval retry_count =
    let minutes = 5 * 2 ^ (retry_count - 1) in if leb minutes 60 then minutes else 60

abbrev pub get_default : String → Value → Fields → Value
get_default key default d = if has key d then get key d else default

abbrev pub int_error : Value → Error
int_error (text s) = value_error
int_error _ = type_error

abbrev pub or_raise : Error → Option ℕ → Result ℕ
or_raise e none = err e
or_raise e (some n) = ok n

-- `int(value)`: a text that is no number is a ValueError, what is neither is a TypeError.
unfoldable pub int_or_raise : Texts → Value → Result ℕ
int_or_raise t v = or_raise (int_error v) (to_int t v)

-- The change that `mark_event_status` is called with on each of the three ways.
abbrev pub failure_change : Env → Status → String → ℕ → Option ℕ → Fields → Change
failure_change env status error retry_count next_retry_time payload = record {
  status = status;
  processed_at = some env.now;
  error_message = some error;
  retry_count = some retry_count;
  next_retry_time = next_retry_time;
  priority = get_default "priority" (text "MEDIUM") payload;
}

abbrev pub failure_report : Row → Status → String → ℕ → ℕ → Option ℕ → Report
failure_report row status error retry_count max_retry_count next_retry_time = record {
  event_id = row.event_id;
  event_type = row.event_type;
  status = status;
  retry_count = some retry_count;
  max_retry_count = some max_retry_count;
  next_retry_time = next_retry_time;
  error = some error;
  created_events = [];
}

-- Give up: as done before (SKIPPED), or for good (FAILED).
unfoldable pub finish_failure : Env → ℕ → Row → Status → String → ℕ → ℕ → ℕ → Fields → Exec Report
finish_failure env i row status error started retry_count max_retry_count payload = do
  write i (λ r. record r { status = status; payload = payload })
  mark env row.event_id (failure_change env status error retry_count none payload)
  mark_execution env row status (some error) (some started) (some env.now)
  pure (failure_report row status error retry_count max_retry_count none)

unfoldable pub next_retry : Row → ℕ → ℕ
next_retry row retry_count =
    row.scheduled_time + compute_retry_interval retry_count * microseconds_per_minute

abbrev pub retry_row : Row → Fields → ℕ → Row → Row
retry_row row payload retry_count r =
    let at = next_retry row retry_count in
    record r {
      status = retry_scheduled;
      next_retry_time = some at;
      payload = put "status" (text "RETRY_SCHEDULED") (put "next_retry_time" (time at) payload);
    }

unfoldable pub schedule_retry : Env → ℕ → Row → String → ℕ → ℕ → Fields → Exec Report
schedule_retry env i row error retry_count max_retry_count payload = do
  let at = next_retry row retry_count
  write i (retry_row row payload retry_count)
  mark env row.event_id (failure_change env retry_scheduled error retry_count (some at) payload)
  pure (failure_report row retry_scheduled error retry_count max_retry_count (some at))

-- The `except Exception` branch. `payload` is that of the started event.
unfoldable pub on_exception : Env → ℕ → Row → String → ℕ → Fields → Exec Report
on_exception env i row error started payload = do
  tried ← lift (int_or_raise env.texts (get_default "retry_count" (num 0) payload))
  max_retry_count ← lift (int_or_raise env.texts (get_default "max_retry_count" (num 3) payload))
  let retry_count = tried + 1
  let payload = put "retry_count" (num retry_count) (put "last_error" (text error) payload)
  if is_idempotent_noop error
      then finish_failure env i row skipped error started retry_count max_retry_count
          (put "status" (text "SKIPPED") payload)
      else if leb retry_count max_retry_count
      then schedule_retry env i row error retry_count max_retry_count payload
      else finish_failure env i row failed error started retry_count max_retry_count
          (put "status" (text "FAILED") payload)
