-- ===== src/Cycle.antt =====
-- simulator/master_simulator.py: one cycle of the simulation over the in-memory queue.
pub mod Future
pub mod Later
pub mod Checkpoints
use daemon_supply_chain.Common.{
  ℕ, suc, String, Bool, true, false, not, ◌&&◌, ◌||◌, Option, none, some, List, [], ◌∷◌, ◌++◌,
  if◌then◌else◌, any, map, filter, elem, Error, Result, ok, err,
}
use daemon_supply_chain.Contracts.{
  lms_event_types, normalize_run_window, is_event_allowed_for_window, validate_lms_sequence,
}
use daemon_supply_chain.Checkpoint.{Checkpoint, read, advance_to}
use daemon_supply_chain.Values.{Value, null, text, dict, end}
use daemon_supply_chain.Queue.{
  Status, retry_scheduled, failed, Row, Queue, Ref, list_ready_events, queue_size,
}
use daemon_supply_chain.Executor.State.{
  Env, Sim, Outcome, returns, raises_type_error, Argument, nothing, empty_dict, Handler, Registry,
  Created, Report, Exec, pure, lift, gets, ◌>>=◌, ◌>>◌, event_at,
}
use daemon_supply_chain.Executor.Merge.{standardize}
use daemon_supply_chain.Executor.Run.{execute}
use daemon_supply_chain.Cycle.Future.{Scheduled, schedule_returned_events}

abbrev pub or_type_error : Outcome → Outcome → Outcome
or_type_error raises_type_error other = other
or_type_error o other = o

-- Any result but a dict counts as a bare success.
abbrev pub normalize_result : Outcome → Outcome
normalize_result (returns v) = returns (dict (standardize v))
normalize_result o = o

abbrev pub or_empty_dict : Argument → Argument
or_empty_dict nothing = empty_dict
or_empty_dict a = a

-- `_wrap_handler`: a TypeError is answered by a call with the context, and then by one with nothing.
unfoldable pub wrap_handler : Handler → Handler
wrap_handler handler = record {
  takes_context = true;
  call = λ argument.
      let a = or_empty_dict argument in
      let first = if handler.takes_context then handler.call a else handler.call nothing in
      normalize_result
        (or_type_error first (or_type_error (handler.call a) (handler.call nothing)));
}

-- `_build_registry`
unfoldable pub build_registry : Registry → Registry
build_registry registry event_type = elim (registry event_type) [
  | some handler ↦ some (wrap_handler handler)
  | none ↦ none
]

-- The window's events and those of shifts.
unfoldable pub is_scheduleable : String → String → Result Bool
is_scheduleable window event_type =
    or_lms (is_event_allowed_for_window (some event_type) (some window))
  where
    or_lms : Result Bool → Result Bool
    or_lms (ok allowed) = ok (allowed || elem event_type lms_event_types)
    or_lms (err e) = err e

-- The first loop: the listed events that the window admits.
unfoldable pub filter_ready : String → List Ref → Result (List Ref)
filter_ready window [] = ok []
filter_ready window ((i, row) ∷ refs) =
    join (is_scheduleable window row.event_type) (filter_ready window refs)
  where
    join : Result Bool → Result (List Ref) → Result (List Ref)
    join (err e) rest = err e
    join (ok allowed) (err e) = err e
    join (ok allowed) (ok rest) = ok (if allowed then (i, row) ∷ rest else rest)

-- The shift events of the queue, in its order.
unfoldable pub lms_sequence : List Row → List String
lms_sequence rows =
    filter (λ event_type. elem event_type lms_event_types) (map (λ row. row.event_type) rows)

-- An event of a shift is passed over unless it ends a valid sequence behind those of the queue.
unfoldable pub passes_lms : List Row → String → Bool
passes_lms rows event_type =
    if elem event_type lms_event_types
    then validate_lms_sequence (lms_sequence rows ++ event_type ∷ [])
    else true

unfoldable pub scheduleable : String → List Created → Result (List Created)
scheduleable window [] = ok []
scheduleable window (c ∷ cs) = join (is_scheduleable window c.event_type) (scheduleable window cs)
  where
    join : Result Bool → Result (List Created) → Result (List Created)
    join (err e) rest = err e
    join (ok allowed) (err e) = err e
    join (ok allowed) (ok rest) = ok (if allowed then c ∷ rest else rest)

-- What the second loop adds to `processed` and to `newly_scheduled`.
pub record Progress : Type 0 where
  pub processed : List Report
  pub newly_scheduled : List Scheduled

-- The body of the second loop, for an event that is executed.
unfoldable pub process_event : Env → Registry → String → ℕ → ℕ → Progress → Exec Progress
process_event env registry window current_time i p = do
  result ← execute env registry i
  wanted ← lift (scheduleable window result.created_events)
  scheduled ← schedule_returned_events env current_time wanted
  pure (record {
    processed = p.processed ++ result ∷ [];
    newly_scheduled = p.newly_scheduled ++ scheduled;
  })

unfoldable pub process_events : Env → Registry → String → ℕ → List Ref → Progress → Exec Progress
process_events env registry window current_time [] p = pure p
process_events env registry window current_time ((i, row) ∷ refs) p = do
  passes ← gets (λ s. passes_lms s.queue.rows row.event_type)
  p ← (if passes then process_event env registry window current_time i p else pure p)
  process_events env registry window current_time refs p

-- `status in {"FAILED", "RETRY_SCHEDULED"}`
abbrev pub is_failure : Status → Bool
is_failure failed = true
is_failure retry_scheduled = true
is_failure _ = false

unfoldable pub has_failure : List Report → Bool
has_failure processed = any (λ r. is_failure r.status) processed

pub record CycleReport : Type 0 where
  pub simulation_time : ℕ
  pub last_checkpoint : Option ℕ
  pub processed_events : List Report
  pub scheduled_events : List Scheduled
  pub ready_events : List Ref
  pub size : ℕ
  pub run_window : String

unfoldable pub list_ready : Env → ℕ → Option ℕ → Exec (List Ref)
list_ready env target from_time s =
    let (refs, q) = list_ready_events env.texts target from_time s.queue in
    (ok refs, record s { queue = q })

-- The two loops.
unfoldable pub dispatch : Env → Registry → String → ℕ → Option ℕ → Exec Progress
dispatch env registry window current_time from_time = do
  ready ← list_ready env current_time from_time
  filtered ← lift (filter_ready window ready)
  process_events env (build_registry registry) window current_time filtered
      (record { processed = []; newly_scheduled = [] })

-- The checkpoint moves to the time of the cycle unless an event failed or waits for a retry.
unfoldable pub next_checkpoint : ℕ → List Report → Checkpoint → Checkpoint
next_checkpoint current_time processed file =
    if has_failure processed then file else advance_to current_time file

unfoldable pub summarize : Env → String → ℕ → Option ℕ → Checkpoint → Progress → Exec CycleReport
summarize env window current_time from_time file p = do
  ready ← list_ready env current_time from_time
  size ← gets (λ s. queue_size env.now s.queue)
  pure (record {
    simulation_time = current_time;
    last_checkpoint = read file;
    processed_events = p.processed;
    scheduled_events = p.newly_scheduled;
    ready_events = ready;
    size = size;
    run_window = window;
  })

-- What a cycle leaves: its report or the exception, the queue and the log, and the checkpoint file.
abbrev pub Ended : Type 0
Ended = Result CycleReport × Sim × Checkpoint

abbrev pub close_cycle : Env → String → ℕ → Checkpoint → Result Progress × Sim → Ended
close_cycle env window current_time file (err e, s) = (err e, s, file)
close_cycle env window current_time file (ok p, s) =
    let file' = next_checkpoint current_time p.processed file in
    let (r, s') = summarize env window current_time (read file) file' p s in (r, s', file')

unfoldable pub run_simulation_cycle : Env → Registry → Option String → ℕ → Checkpoint → Sim → Ended
run_simulation_cycle env registry run_window current_time file s =
    elim (normalize_run_window run_window) [
      | err e ↦ (err e, s, file)
      | ok window ↦
          close_cycle env window current_time file
            (dispatch env registry window current_time (read file) s)
    ]
