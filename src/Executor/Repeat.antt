-- ===== src/Executor/Repeat.antt =====
-- event_executor.py: events that are not run, because they were before or because their step is refused.
use daemon_supply_chain.Common.{
  [], ◌==◌, ◌∷◌, inl, inr, lookup, eq_refl, Bool-cases, ℕ, String, ◌≡◌, refl, true, false, none,
  some, List, map_option, Result, ok,
}
use daemon_supply_chain.Queue.{failed, skipped, Row}
use daemon_supply_chain.Queue.Rows.{row_of}
use daemon_supply_chain.Executor.State.{
  mark_execution, write, put_log, Env, LogEntry, Sim, Handler, Registry, Report, ◌>>=◌, ◌>>◌, mark,
}
use daemon_supply_chain.Executor.Prepare.{
  prepare, already_completed, build_handler_context, validate_state_transition,
}
use daemon_supply_chain.Executor.Run.{
  plain_report, plain_change, skip, reject, find_handler, validated, run, execute,
}
use daemon_supply_chain.Executor.Settles.{mark-stored}

-- The outcome of an execution: its report, its log, and the status of the report's row.
pub record Leaves (r : Report) (log : List (String × LogEntry)) (outcome : Result Report × Sim)
    : Type 0 where
  pub reported : outcome.0 ≡ ok r
  pub logged : outcome.1.log ≡ log
  pub stored :
      map_option (λ (row : Row). row.status) (row_of r.event_id outcome.1.queue.rows)
      ≡ some r.status

lookup-put_log :
    (event_id : String) (e : LogEntry) (log : List (String × LogEntry))
    → lookup event_id (put_log event_id e log) ≡ some e
lookup-put_log event_id e [] = rw (eq_refl event_id) refl
lookup-put_log event_id e ((k, old) ∷ rest) = elim (Bool-cases (event_id == k)) [
  | inl here ↦ rw here (rw (eq_refl event_id) refl)
  | inr there ↦ rw there (rw there (lookup-put_log event_id e rest))
]

-- The outcome of a rejection: its report, the status of the row, and that the event has ended.
pub record IsRefused (row : Row) (error : String) (outcome : Result Report × Sim) : Type 0 where
  pub reported : outcome.0 ≡ ok (plain_report row failed (some error))
  pub stored :
      map_option (λ (r : Row). r.status) (row_of row.event_id outcome.1.queue.rows) ≡ some failed
  pub ended : already_completed row.event_id outcome.1 ≡ true

module _ (env : Env) (registry : Registry) (i : ℕ) (s s' : Sim) (row : Row) where
  skip-Leaves : Leaves (plain_report row skipped none) s'.log (skip env row s')
  unfolding skip ◌>>=◌ ◌>>◌ mark
  skip-Leaves = record {
    reported = refl;
    logged = refl;
    stored = mark-stored env row.event_id (plain_change env skipped none) s';
  }

  -- An event that, with its ids filled in, is found to have ended by the log or by a row of the
  -- queue is not run again: whatever the handlers, the report is SKIPPED with no created events,
  -- the log is as it was, and the first row of its id has SKIPPED.
  pub execute-already_completed :
      prepare env i s ≡ (ok row, s')
      → already_completed row.event_id s' ≡ true
      → Leaves (plain_report row skipped none) s'.log (execute env registry i s)
  unfolding execute ◌>>=◌
  execute-already_completed prepared done = rw (prepared, done) skip-Leaves

  reject-IsRefused : (error : String) → IsRefused row error (reject env i row error s')
  unfolding reject ◌>>=◌ ◌>>◌ mark mark_execution write already_completed
  reject-IsRefused error = record {
    reported = refl;
    stored =
        mark-stored env row.event_id (plain_change env failed (some error))
          (write i (λ r. record r { status = failed }) s').1;
    ended = rw (lookup-put_log row.event_id) refl;
  }

  -- Where an event with its ids filled in has not ended, has a handler, and the check of its step
  -- refuses it with a text, the execution reports FAILED with the text and no created events
  -- whatever the handler does, the first row of its id has FAILED, and the event counts as ended.
  pub execute_rejected :
      (handler : Handler) (error : String)
      → prepare env i s ≡ (ok row, s')
      → already_completed row.event_id s' ≡ false
      → find_handler registry row ≡ some handler
      → validate_state_transition env.texts row (build_handler_context row) ≡ ok (some error)
      → IsRefused row error (execute env registry i s)
  unfolding execute run validated ◌>>=◌
  execute_rejected handler error prepared fresh found refused =
      rw (prepared, fresh, found, execute, run) (rw refused (reject-IsRefused error))
