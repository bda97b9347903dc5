-- ===== src/Manager/Steps.antt =====
-- simulation_control.py: a run and its worker threads, step by step. A step is one block under the lock,
-- so calls of the API and blocks of the workers come in any order. Every start of a thread adds one.
use daemon_supply_chain.Common.{
  ℕ, suc, String, ◌<◌, Bool, true, false, Option, none, some, List, [], ◌∷◌, ◌++◌,
}
use daemon_supply_chain.Cycle.{CycleReport}
use daemon_supply_chain.Manager.{
  Run, pause, resume, check_pause, set_running, advance, reached_horizon, finish_run, fail_run,
  leave,
}

-- Where a worker is. The number counts the iterations of the loop that have begun.
pub data Phase : Type 0 where
  -- Before the first block: the thread waits for simulation_execution_lock.
  waiting : Phase
  -- Between the two blocks in front of the loop.
  beginning : Phase
  -- At the top of the loop, with the result of the last cycle.
  looping : ℕ → Option CycleReport → Phase
  -- In a cycle that began at the time.
  cycling : ℕ → ℕ → Phase
  -- Past the loop, with the last result.
  ending : Option CycleReport → Phase
  -- Before the `finally` of `_run`.
  leaving : Phase

-- A run, and all the threads that run `_run` for it.
pub record State : Type 0 where
  pub run : Run
  pub workers : List Phase

abbrev pub at : Run → List Phase → State
at run workers = record { run = run; workers = workers }

-- `threading.Thread(…).start()`, where a call comes to it.
abbrev pub spawned : Bool → List Phase → List Phase
spawned true workers = workers ++ waiting ∷ []
spawned false workers = workers

-- A worker that saw the request leaves.
abbrev pub unless_paused : Bool → Phase → List Phase
unless_paused true phase = leaving ∷ []
unless_paused false phase = phase ∷ []

abbrev pub after_cycle : Bool → ℕ → CycleReport → List Phase
after_cycle true n result = ending (some result) ∷ []
after_cycle false n result = looping n (some result) ∷ []

-- One block of a worker: the run and the phase before, the run and the phase after, which is none where
-- the thread ends. The loop is over range(100).
pub data Block : Run → Phase → Run → List Phase → Type 0 where
  lock_raised : (r : Run) (error : String) → Block r waiting (fail_run error r) (leaving ∷ [])
  first_check :
      (r : Run) → Block r waiting (check_pause r).0 (unless_paused (check_pause r).1 beginning)
  set_to_running : (r : Run) → Block r beginning (set_running r) (looping 0 none ∷ [])
  top_of_loop :
      (r : Run) (n : ℕ) (result : Option CycleReport)
      → n < 100
      → Block r
          (looping n result)
          (check_pause r).0
          (unless_paused (check_pause r).1 (cycling (suc n) r.simulation_time))
  loop_exhausted :
      (r : Run) (result : Option CycleReport) → Block r (looping 100 result) r (ending result ∷ [])
  no_next_event :
      (r : Run) (n time : ℕ) (result : CycleReport)
      → Block r (cycling n time) r (ending (some result) ∷ [])
  next_event :
      (r : Run) (n time next : ℕ) (result : CycleReport)
      → Block r
          (cycling n time)
          (advance time next result r)
          (after_cycle (reached_horizon time (advance time next result r)) n result)
  raised :
      (r : Run) (n time : ℕ) (error : String)
      → Block r (cycling n time) (fail_run error r) (leaving ∷ [])
  ended :
      (r : Run) (result : Option CycleReport)
      → Block r (ending result) (finish_run result r) (leaving ∷ [])
  left : (r : Run) → Block r leaving (leave r) []

-- A call of the API, or a block of any of the workers.
pub data Step : State → State → Type 0 where
  paused_by_call : (r : Run) (ws : List Phase) → Step (at r ws) (at (pause r) ws)
  resumed_by_call :
      (r : Run) (ws : List Phase) → Step (at r ws) (at (resume r).0 (spawned (resume r).1 ws))
  moved :
      (r r' : Run) (p : Phase) (next xs ys : List Phase)
      → Block r p r' next
      → Step (at r (xs ++ p ∷ ys)) (at r' (xs ++ next ++ ys))

-- What a run may come to from where it is.
pub data Reaches : State → State → Type 0 where
  here : (s : State) → Reaches s s
  more : {s t u : State} → Step s t → Reaches t u → Reaches s u
