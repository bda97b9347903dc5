-- ===== src/Executor/Run.antt =====
-- event_executor.py, `_execute`.
use daemon_supply_chain.Common.{
  ℕ, ◌+◌, String, Option, none, some, [], if◌then◌else◌, key_error, failure, type_error, Result, ok,
  err,
}
use daemon_supply_chain.Values.{null, text, time, Fields, get, put, truthy}
use daemon_supply_chain.Queue.{Status, started, failed, skipped, Row}
use daemon_supply_chain.Queue.Marks.{Change}
use daemon_supply_chain.Executor.State.{
  Env, Context, nothing, context, Outcome, returns, raises, raises_type_error, Handler, Registry,
  Report, Exec, pure, raise, lift, gets, ◌>>=◌, ◌>>◌, write, mark, mark_execution,
}
use daemon_supply_chain.Executor.Prepare.{
  prepare, already_completed, build_handler_context, validate_state_transition,
}
use daemon_supply_chain.Executor.Failure.{on_exception}
use daemon_supply_chain.Executor.Success.{on_success}

abbrev pub plain_report : Row → Status → Option String → Report
plain_report row status error = record {
  event_id = row.event_id;
  event_type = row.event_type;
  status = status;
  retry_count = none;
  max_retry_count = none;
  next_retry_time = none;
  error = error;
  created_events = [];
}

abbrev pub plain_change : Env → Status → Option String → Change
plain_change env status error = record {
  status = status;
  processed_at = some env.now;
  error_message = error;
  retry_count = none;
  next_retry_time = none;
  priority = null;
}

unfoldable pub skip : Env → Row → Exec Report
skip env row = do
  mark env row.event_id (plain_change env skipped none)
  pure (plain_report row skipped none)

-- The `except InvalidStateTransition` branch.
unfoldable pub reject : Env → ℕ → Row → String → Exec Report
reject env i row error = do
  write i (λ r. record r { status = failed })
  mark env row.event_id (plain_change env failed (some error))
  mark_execution env row started none (some env.now) none
  mark_execution env row failed (some error) none none
  pure (plain_report row failed (some error))

-- The handler, or that of domain signals for an event that carries one.
unfoldable pub find_handler : Registry → Row → Option Handler
find_handler registry row = elim (registry row.event_type) [
  | some handler ↦ some handler
  | none ↦ if truthy (get "domain_signal" row.payload) then registry "__domain_signal__" else none
]

-- The call: a TypeError is answered by a call with no argument, whose exceptions are not caught.
unfoldable pub call_handler : Handler → Context → Result Outcome
call_handler handler c =
    answer (if handler.takes_context then handler.call (context c) else handler.call nothing)
  where
    again : Outcome → Result Outcome
    again (returns v) = ok (returns v)
    again (raises e) = err (failure e)
    again raises_type_error = err type_error

    answer : Outcome → Result Outcome
    answer raises_type_error = again (handler.call nothing)
    answer o = ok o

unfoldable pub finish : Env → ℕ → Row → ℕ → Fields → Outcome → Exec Report
finish env i row started_at payload (returns v) = on_success env i row started_at payload v
finish env i row started_at payload (raises e) = on_exception env i row e started_at payload
finish env i row started_at payload raises_type_error = raise type_error

abbrev pub started_payload : ℕ → Fields → Fields
started_payload started_at payload =
    put "status" (text "RUNNING") (put "event_started_time" (time started_at) payload)

unfoldable pub start : Env → ℕ → Row → Handler → Exec Report
start env i row handler = do
  let started_at = row.event_created_time + env.latency
  let payload = started_payload started_at row.payload
  write i (λ r. record r { event_started_time = some started_at; payload = payload })
  mark_execution env row started none (some started_at) none
  outcome ← lift (call_handler handler (build_handler_context row))
  finish env i row started_at payload outcome

unfoldable pub validated : Env → ℕ → Row → Handler → Option String → Exec Report
validated env i row handler none = start env i row handler
validated env i row handler (some error) = reject env i row error

unfoldable pub run : Env → ℕ → Row → Option Handler → Exec Report
run env i row none = raise key_error
run env i row (some handler) = do
  verdict ← lift (validate_state_transition env.texts row (build_handler_context row))
  validated env i row handler verdict

unfoldable pub execute : Env → Registry → ℕ → Exec Report
execute env registry i = do
  row ← prepare env i
  done ← gets (already_completed row.event_id)
  if done then skip env row else run env i row (find_handler registry row)
