-- ===== src/Examples/Runs.antt =====
-- Inputs at which the theorems on executions and cycles apply.
use daemon_supply_chain.Common.{
  ◌⊎◌, ℕ, ◌+◌, ◌*◌, ◌≤◌, ◌<◌, String, ◌≡◌, refl, Bool, true, false, Option, none, some, List, [],
  ◌∷◌, arith, All, Result, ok, err,
}
use daemon_supply_chain.Common.Text.{strip}
use daemon_supply_chain.Contracts.{Kind, kind, lms_event_types}
use daemon_supply_chain.Values.{
  get, has, truthy, to_int, Value, null, text, num, Fields, end, field,
}
use daemon_supply_chain.Queue.{
  new_row, Status, completed, skipped, pending, Row, Queue, empty, is_ready,
}
use daemon_supply_chain.Executor.Sequence.{Next, next, next_event_sequence}
use daemon_supply_chain.Executor.Resolve.{next_config, next_payload}
use daemon_supply_chain.Executor.Prepare.{
  prepare, fill_aggregate_id, fill_correlation_id, already_completed, validate_state_transition,
  build_handler_context,
}
use daemon_supply_chain.Executor.State.{◌>>=◌, ◌>>◌, fresh, write, event_at, Sim, Created}
use daemon_supply_chain.Timing.Bounds.{IsRandint}
use daemon_supply_chain.Executor.Run.{execute, plain_report, reject}
use daemon_supply_chain.Executor.Settles.{Settles, execute-Settles}
use daemon_supply_chain.Executor.Retries.{IsAgain, IsGivenUp, on_exception-IsAgain}
use daemon_supply_chain.Executor.State.{Report}
use daemon_supply_chain.Executor.Failure.{on_exception}
use daemon_supply_chain.Executor.Repeat.{
  IsRefused, Leaves, execute-already_completed, execute_rejected,
}
use daemon_supply_chain.Executor.Follow.{Chain, stop, step, Chain-le}
use daemon_supply_chain.Executor.Accepted.{default_next-accepted}
use daemon_supply_chain.Checkpoint.{Checkpoint, read}
use daemon_supply_chain.Cycle.{has_failure, run_simulation_cycle, passes_lms, CycleReport}
use daemon_supply_chain.Cycle.Checkpoints.{
  KeepsCheckpoint, run_simulation_cycle-KeepsCheckpoint, passes_lms_open, is_ready_past,
}
use daemon_supply_chain.Cycle.Future.{schedule_returned_events}
use daemon_supply_chain.Cycle.Later.{Adds, IsFuture, schedule_returned_events-Adds}
use daemon_supply_chain.Examples.Setup.{
  noon, lowest, env, succeed, all_succeed, all_fail, sim, order_event,
}

execute-Settles_example : Settles (execute env all_fail 0)
execute-Settles_example = execute-Settles env all_fail 0

run_simulation_cycle-KeepsCheckpoint_example :
    KeepsCheckpoint noon none (run_simulation_cycle env all_succeed (some "morning") noon none sim)
run_simulation_cycle-KeepsCheckpoint_example =
    run_simulation_cycle-KeepsCheckpoint env all_succeed (some "morning") noon none sim

passes_lms_open_example : passes_lms sim.queue.rows "ShiftStart" ≡ false
unfolding kind strip
passes_lms_open_example = passes_lms_open sim.queue.rows "ShiftStart" refl refl

lowest-IsRandint : (n : ℕ) → IsRandint (lowest n)
lowest-IsRandint n lo hi h = (omega arith, h)

abbrev created : Created
created = record {
  event_type = "PurchaseOrderApproved";
  aggregate_type = "purchase_orders";
  aggregate_id = "PO-1001";
  correlation_id = "corr-1001";
  payload = end;
  priority = "HIGH";
  scheduled_time = null;
}

schedule_returned_events-Adds_example :
    Adds noon (All (IsFuture noon)) (schedule_returned_events env noon (created ∷ []))
schedule_returned_events-Adds_example =
    schedule_returned_events-Adds noon env lowest-IsRandint (created ∷ [])

approved : Chain "PurchaseOrderCreated" 1
unfolding next_config next_event_sequence get truthy
approved = step end _ refl stop

Chain-le_example : 1 ≤ 25
Chain-le_example = Chain-le approved

-- An event that was done before.
abbrev done_row : Row
done_row = record (new_row noon "uuid-1" order_event) { status = completed }

abbrev done : Sim
done = record { queue = record empty { rows = done_row ∷ [] }; log = []; drawn = 1 }

abbrev done_prepared : Sim
done_prepared = record done { drawn = 2 }

execute-already_completed_example :
    Leaves (plain_report done_row skipped none) [] (execute env all_succeed 0 done)
unfolding prepare fresh write event_at fill_aggregate_id fill_correlation_id already_completed ◌>>=◌
    ◌>>◌ new_row
execute-already_completed_example =
    execute-already_completed env all_succeed 0 done done_prepared done_row refl refl

-- An event whose step no machine has.
abbrev bad_row : Row
bad_row = record (new_row noon "uuid-1" order_event) {
  event_type = "PurchaseOrderApproved";
  payload =
      field "entity_type" (text "PurchaseOrder")
        (field "next_state" (text "CLOSED") (field "current_state" (text "CREATED") end));
}

abbrev bad : Sim
bad = record { queue = record empty { rows = bad_row ∷ [] }; log = []; drawn = 1 }

abbrev bad_prepared : Sim
bad_prepared = record bad { drawn = 2 }

abbrev bad_text : String
bad_text = "Invalid state transition for PurchaseOrderApproved: CREATED -> CLOSED"

execute_rejected_example : IsRefused bad_row bad_text (execute env all_succeed 0 bad)
unfolding prepare fresh write event_at fill_aggregate_id fill_correlation_id already_completed ◌>>=◌
    ◌>>◌ new_row daemon_supply_chain.Executor.Run.find_handler validate_state_transition truthy get
    build_handler_context daemon_supply_chain.Values.◌or◌
    daemon_supply_chain.StateMachine.validate_transition
    daemon_supply_chain.StateMachine.allows_entity
    daemon_supply_chain.StateMachine.normalize_entity_type daemon_supply_chain.StateMachine.aliases
    daemon_supply_chain.Common.Text.lower strip daemon_supply_chain.Values.str
    daemon_supply_chain.StateMachine.state_machine daemon_supply_chain.StateMachine.allows
    daemon_supply_chain.Common.Text.upper
execute_rejected_example =
    execute_rejected env all_succeed 0 bad bad_prepared bad_row succeed bad_text refl refl refl refl

on_exception-IsAgain_example :
    (r : Report) × ((on_exception env 0 done_row "database is down" noon end sim).0 ≡ ok r)
    × (r.retry_count ≡ some 1)
    × (IsAgain done_row 0 3 r ⊎ IsGivenUp 0 3 r)
unfolding to_int has daemon_supply_chain.Executor.Failure.is_idempotent_noop
    daemon_supply_chain.Common.Text.contains daemon_supply_chain.Common.Text.lower
on_exception-IsAgain_example =
    on_exception-IsAgain env 0 done_row "database is down" noon end 0 3 sim refl refl refl

abbrev approval_step : Next
approval_step =
    next "PurchaseOrderApproved" "purchase_orders" "PurchaseOrder" "CREATED" "APPROVED" "HIGH"

abbrev approval : Row
approval = record (new_row noon "uuid-1" order_event) {
  event_type = "PurchaseOrderApproved";
  payload = next_payload approval_step "PO-1001" "corr-1001" noon end;
}

default_next-accepted_example :
    validate_state_transition env.texts approval (build_handler_context approval) ≡ ok none
unfolding next_config next_event_sequence get truthy
default_next-accepted_example =
    default_next-accepted env.texts "PurchaseOrderCreated" "PO-1001" "corr-1001" noon end
      approval_step approval refl refl refl

abbrev quiet : Sim
quiet = record { queue = empty; log = []; drawn = 0 }

abbrev quiet_report : CycleReport
quiet_report = record {
  simulation_time = noon;
  last_checkpoint = some noon;
  processed_events = [];
  scheduled_events = [];
  ready_events = [];
  size = 0;
  run_window = "morning";
}

abbrev early_row : Row
early_row = record (new_row noon "uuid-1" order_event) { scheduled_time = 5 }

is_ready_past_example :
    is_ready
      (2 * noon)
      (read (run_simulation_cycle env all_succeed (some "morning") noon none quiet).2)
      early_row
    ≡ false
unfolding run_simulation_cycle has_failure daemon_supply_chain.Contracts.normalize_run_window
    daemon_supply_chain.Common.Text.lower strip daemon_supply_chain.Cycle.dispatch ◌>>=◌
    daemon_supply_chain.Cycle.list_ready daemon_supply_chain.Cycle.filter_ready
    daemon_supply_chain.Queue.list_ready_events daemon_supply_chain.Queue.ready_refs
    daemon_supply_chain.Queue.sort_refs daemon_supply_chain.Cycle.process_events
    daemon_supply_chain.Cycle.summarize read daemon_supply_chain.Queue.queue_size
    daemon_supply_chain.Cycle.next_checkpoint daemon_supply_chain.Checkpoint.advance_to
    daemon_supply_chain.Checkpoint.write
is_ready_past_example =
    is_ready_past env all_succeed (some "morning") noon (2 * noon) none quiet quiet_report early_row
      refl refl (omega arith)
