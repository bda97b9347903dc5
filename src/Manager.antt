-- ===== src/Manager.antt =====
-- api/services/simulation_control.py: the runs that the API starts, pauses and resumes. Each function is
-- one block under the manager's lock; `Manager.Steps` puts them in every order that threads allow.
pub mod Steps
pub mod Reach
pub mod Later
use daemon_supply_chain.Common.{
  ℕ, suc, ◌+◌, ◌*◌, String, Bool, true, false, ◌&&◌, Option, none, some, List, leb, if◌then◌else◌,
  length, filter, ◌==◌, Result, ok, err,
}
use daemon_supply_chain.Timing.{microseconds_per_minute}
use daemon_supply_chain.Queue.{Ref}
use daemon_supply_chain.Cycle.{CycleReport}

pub data RunStatus : Type 0 where
  running paused completed failed : RunStatus

-- A record of `_runs`; its queue, its paths and the fields that nothing reads are left out.
pub record Run : Type 0 where
  pub status : RunStatus
  pub events_processed : ℕ
  pub simulation_time : ℕ
  pub last_result : Option CycleReport
  pub error : Option String
  pub pause_requested : Bool
  pub duration_hours : Option ℕ
  pub run_window : String
  pub correlation_id : Option String
  pub worker_active : Bool

-- `_CorrelationScopedQueue.list_ready_events` and `queue_size`
unfoldable pub list_scoped : String → List Ref → List Ref
list_scoped correlation_id refs = filter (λ x. x.1.correlation_id == correlation_id) refs

unfoldable pub scoped_size : String → List Ref → ℕ
scoped_size correlation_id refs = length (list_scoped correlation_id refs)

unfoldable pub new_run : ℕ → Option ℕ → String → Option String → Run
new_run simulation_time duration_hours run_window correlation_id = record {
  status = running;
  events_processed = 0;
  simulation_time = simulation_time;
  last_result = none;
  error = none;
  pause_requested = false;
  duration_hours = duration_hours;
  run_window = run_window;
  correlation_id = correlation_id;
  worker_active = false;
}

-- `_start_worker_locked`: the flag says whether a thread is started.
unfoldable pub start_worker_locked : Run → Run × Bool
start_worker_locked r =
    if r.worker_active
    then (r, false)
    else (record r { worker_active = true; status = running; pause_requested = false }, true)

unfoldable pub start : ℕ → Option ℕ → String → Option String → Run × Bool
start simulation_time duration_hours run_window correlation_id =
    start_worker_locked (new_run simulation_time duration_hours run_window correlation_id)

unfoldable pub pause : Run → Run
pause r = record r { pause_requested = true; status = paused_if r.status }
  where
    paused_if : RunStatus → RunStatus
    paused_if running = paused
    paused_if s = s

unfoldable pub resume : Run → Run × Bool
resume r = resumed r.status (record r { pause_requested = false })
  where
    resumed : RunStatus → Run → Run × Bool
    resumed paused r' =
        if r'.worker_active then (record r' { status = running }, false) else start_worker_locked r'
    resumed _ r' = (r', false)

-- The first block of `_run_locked`, and the one at the top of its loop: true where the worker returns.
unfoldable pub check_pause : Run → Run × Bool
check_pause r = if r.pause_requested then (record r { status = paused }, true) else (r, false)

unfoldable pub set_running : Run → Run
set_running r = record r { status = running }

abbrev pub microseconds_per_hour : ℕ
microseconds_per_hour = 60 * microseconds_per_minute

abbrev pub min : ℕ → ℕ → ℕ
min a b = if leb a b then a else b

abbrev pub max : ℕ → ℕ → ℕ
max a b = if leb a b then b else a

-- `min(next_scheduled_time, horizon)`, the horizon being counted from the time of this iteration.
abbrev pub within : ℕ → Option ℕ → ℕ → ℕ
within simulation_time none next = next
within simulation_time (some hours) next =
    min next (simulation_time + hours * microseconds_per_hour)

-- The block behind a cycle with a next event. `simulation_time` is what the iteration has read.
unfoldable pub advance : ℕ → ℕ → CycleReport → Run → Run
advance simulation_time next result r = record r {
  simulation_time = max simulation_time (within simulation_time r.duration_hours next);
  last_result = some result;
  events_processed = r.events_processed + length result.processed_events;
}

-- Whether the loop ends behind that block.
unfoldable pub reached_horizon : ℕ → Run → Bool
reached_horizon simulation_time r = at_horizon r.duration_hours
  where
    at_horizon : Option ℕ → Bool
    at_horizon none = false
    at_horizon (some hours) =
        leb (simulation_time + hours * microseconds_per_hour) r.simulation_time

unfoldable pub finish_run : Option CycleReport → Run → Run
finish_run result r = record r { last_result = result; status = completed }

unfoldable pub fail_run : String → Run → Run
fail_run error r = record r { error = some error; status = failed }

-- The `finally` of `_run`.
unfoldable pub leave : Run → Run
leave r = record r { worker_active = false }
