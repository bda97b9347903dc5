-- ===== src/Scheduler.antt =====
-- simulator/core/event_scheduler/scheduler.py: a batch of the events that are due, with no window.
use daemon_supply_chain.Common.{ℕ, Option, List, [], ◌∷◌}
use daemon_supply_chain.Queue.{Ref, or_now}
use daemon_supply_chain.Executor.State.{Env, Registry, Report, Exec, pure, ◌>>=◌}
use daemon_supply_chain.Executor.Run.{execute}
use daemon_supply_chain.Cycle.{list_ready}

unfoldable pub execute_all : Env → Registry → List Ref → Exec (List Report)
execute_all env registry [] = pure []
execute_all env registry ((i, row) ∷ refs) = do
  result ← execute env registry i
  rest ← execute_all env registry refs
  pure (result ∷ rest)

unfoldable pub dispatch_ready_events : Env → Registry → ℕ → Option ℕ → Exec (List Report)
dispatch_ready_events env registry simulation_time from_time = do
  ready_events ← list_ready env simulation_time from_time
  execute_all env registry ready_events

unfoldable pub run_batch : Env → Registry → Option ℕ → Option ℕ → Exec (List Report)
run_batch env registry simulation_time from_time =
    dispatch_ready_events env registry (or_now env.now simulation_time) from_time
