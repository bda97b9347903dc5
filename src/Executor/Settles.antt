-- ===== src/Executor/Settles.antt =====
-- event_executor.py: what every execution that returns has left in the queue.
use daemon_supply_chain.Common.{
  key_error, type_error, leb, ◌+◌, ℕ, String, ◌≡◌, refl, Bool, true, false, Option, none, some,
  List, eq_refl, if◌then◌else◌, map_option, Error, Result, ok, err,
}
use daemon_supply_chain.Values.{Value, Fields}
use daemon_supply_chain.Queue.{Status, retry_scheduled, completed, failed, skipped, is_final, Row}
use daemon_supply_chain.Queue.Marks.{Change, mark_row}
use daemon_supply_chain.Queue.Rows.{row_of}
use daemon_supply_chain.Queue.Mark.{mark_event_status-row_of}
use daemon_supply_chain.Executor.State.{
  Created, Env, Sim, Registry, Handler, Outcome, returns, raises, raises_type_error, Report, Exec,
  raise, continue, ◌>>=◌, ◌>>◌, mark, mark_execution, write,
}
use daemon_supply_chain.Executor.Failure.{
  is_idempotent_noop, finish_failure, schedule_retry, on_exception, failure_change, next_retry,
  retry_row,
}
use daemon_supply_chain.Executor.Success.{record_completed, complete, on_success, completed_change}
use daemon_supply_chain.Executor.Run.{
  plain_change, skip, reject, finish, start, validated, run, execute, find_handler,
}

-- The statuses in which an execution may end.
abbrev pub is_settled : Status → Bool
is_settled retry_scheduled = true
is_settled s = is_final s

-- The report is of an end, and the queue's row for its event has the status that it reports.
pub record IsTrue (r : Report) (s : Sim) : Type 0 where
  pub settled : is_settled r.status ≡ true
  pub stored :
      map_option (λ (row : Row). row.status) (row_of r.event_id s.queue.rows) ≡ some r.status

-- Whatever report the code returns, it is true of the state that the code leaves.
abbrev pub EndsTrue : Result Report × Sim → Type 0
EndsTrue (ok r, s) = IsTrue r s
EndsTrue (err e, s) = Unit

pub record Settles (m : Exec Report) : Type 0 where
  pub at : (s : Sim) → EndsTrue (m s)

bind-EndsTrue :
    {A : Type 0} (r : Result A) (s : Sim) (f : A → Exec Report)
    → ((a : A) → Settles (f a))
    → EndsTrue (continue f r s)
bind-EndsTrue (ok a) s f h = (h a).at s
bind-EndsTrue (err e) s f h = tt

Settles-bind :
    {A : Type 0} (m : Exec A) (f : A → Exec Report) → ((a : A) → Settles (f a)) → Settles (m >>= f)
unfolding ◌>>=◌
Settles-bind m f h = record { at = λ s. bind-EndsTrue (m s).0 (m s).1 f h }

Settles-raise : (e : Error) → Settles (raise e)
Settles-raise e = record { at = λ s. tt }

Settles-if : (b : Bool) (m n : Exec Report) → Settles m → Settles n → Settles (if b then m else n)
Settles-if true m n hm hn = hm
Settles-if false m n hm hn = hn

-- After a mark the row of the id has the status of the change.
pub mark-stored :
    (env : Env) (event_id : String) (c : Change) (s : Sim)
    → map_option (λ (row : Row). row.status) (row_of event_id (mark env event_id c s).1.queue.rows)
      ≡ some c.status
unfolding mark mark_row
mark-stored env event_id c s =
    rw
      (
        (mark_event_status-row_of env.texts env.now (env.uuid s.drawn) event_id c s.queue
            event_id).0,
        eq_refl event_id,
      )
      refl

module _ (env : Env) (i : ℕ) (row : Row) where
  skip-Settles : Settles (skip env row)
  unfolding skip mark ◌>>=◌ ◌>>◌
  skip-Settles = record {
    at = λ s. record {
      settled = refl;
      stored = mark-stored env row.event_id (plain_change env skipped none) s;
    };
  }

  reject-Settles : (error : String) → Settles (reject env i row error)
  unfolding reject mark mark_execution write ◌>>=◌ ◌>>◌
  reject-Settles error = record {
    at = λ s. record {
      settled = refl;
      stored =
          mark-stored env row.event_id (plain_change env failed (some error))
            (write i (λ r. record r { status = failed }) s).1;
    };
  }

  module _ (error : String) (payload : Fields) where
    finish_failure-Settles :
        (status : Status) (started retry_count max_retry_count : ℕ)
        → is_settled status ≡ true
        → Settles
            (finish_failure env i row status error started retry_count max_retry_count payload)
    unfolding finish_failure mark mark_execution write ◌>>=◌ ◌>>◌
    finish_failure-Settles status started retry_count max_retry_count h = record {
      at = λ s. record {
        settled = h;
        stored =
            mark-stored env row.event_id (failure_change env status error retry_count none payload)
              (write i (λ r. record r { status = status; payload = payload }) s).1;
      };
    }

    schedule_retry-Settles :
        (retry_count max_retry_count : ℕ)
        → Settles (schedule_retry env i row error retry_count max_retry_count payload)
    unfolding schedule_retry mark mark_execution write ◌>>=◌ ◌>>◌
    schedule_retry-Settles retry_count max_retry_count = record {
      at = λ s. record {
        settled = refl;
        stored =
            mark-stored env row.event_id
              (failure_change env retry_scheduled error retry_count
                (some (next_retry row retry_count)) payload)
              (write i (retry_row row payload retry_count) s).1;
      };
    }

  on_exception-Settles :
      (error : String) (started : ℕ) (payload : Fields)
      → Settles (on_exception env i row error started payload)
  unfolding on_exception
  on_exception-Settles error started payload = Settles-bind _ _ λ tried. Settles-bind _ _ λ most.
      Settles-if (is_idempotent_noop error) _ _
        (finish_failure-Settles error _ skipped started _ most refl)
        (Settles-if (leb (tried + 1) most) _ _ (schedule_retry-Settles error _ _ most)
          (finish_failure-Settles error _ failed started _ most refl))

  record_completed-Settles :
      (started completed_at : ℕ) (payload : Fields) (created : List Created)
      → Settles (record_completed env i row started completed_at payload created)
  unfolding record_completed mark mark_execution write ◌>>=◌ ◌>>◌
  record_completed-Settles started completed_at payload created = record {
    at = λ s. record {
      settled = refl;
      stored =
          mark-stored env row.event_id (completed_change completed_at payload)
            (logged (write i _ s).1).1;
    };
  }
    where
      logged : Exec (Unit {0})
      logged = mark_execution env row completed none (some started) (some completed_at)

module _ (env : Env) (i : ℕ) where
  on_success-Settles :
      (row : Row) (started : ℕ) (payload : Fields) (result : Value)
      → Settles (on_success env i row started payload result)
  unfolding on_success complete
  on_success-Settles row started payload result = Settles-bind _ _ λ shipped.
      Settles-bind _ _ λ row'. Settles-bind _ _ λ real. Settles-bind _ _ λ row''.
        Settles-bind _ _ λ vs. Settles-bind _ _ λ created.
          Settles-bind _ _ λ retry_count. record_completed-Settles env i row'' started _ _ created

  finish-Settles :
      (row : Row) (started : ℕ) (payload : Fields) (o : Outcome)
      → Settles (finish env i row started payload o)
  unfolding finish
  finish-Settles row started payload (returns v) = on_success-Settles row started payload v
  finish-Settles row started payload (raises e) = on_exception-Settles env i row e started payload
  finish-Settles row started payload raises_type_error = Settles-raise type_error

  start-Settles : (row : Row) (handler : Handler) → Settles (start env i row handler)
  unfolding start ◌>>◌
  start-Settles row handler =
      Settles-bind _ _
        λ u. Settles-bind _ _ λ u'. Settles-bind _ _ λ outcome. finish-Settles row _ _ outcome

  validated-Settles :
      (row : Row) (handler : Handler) (verdict : Option String)
      → Settles (validated env i row handler verdict)
  unfolding validated
  validated-Settles row handler none = start-Settles row handler
  validated-Settles row handler (some error) = reject-Settles env i row error

  run-Settles : (row : Row) (found : Option Handler) → Settles (run env i row found)
  unfolding run
  run-Settles row none = Settles-raise key_error
  run-Settles row (some handler) = Settles-bind _ _ λ verdict. validated-Settles row handler verdict

-- Whatever the handlers do, an execution that returns reports RETRY_SCHEDULED, COMPLETED, FAILED or
-- SKIPPED, and the first row of the queue with the reported id has that status.
pub execute-Settles : (env : Env) (registry : Registry) (i : ℕ) → Settles (execute env registry i)
unfolding execute
execute-Settles env registry i = Settles-bind _ _ λ row. Settles-bind _ _ λ done.
    Settles-if done _ _ (skip-Settles env i row) (run-Settles env i row (find_handler registry row))
