-- ===== src/Cycle/Checkpoints.antt =====
-- master_simulator.py: when the checkpoint moves, and what a later cycle then lists.
use daemon_supply_chain.Common.{
  ◌≢◌, ◌⊎◌, [], ◌∷◌, All, ℕ, String, ◌≡◌, refl, inl, inr, true, false, Option, some, List, ◌<◌,
  arith, if◌then◌else◌, elem, Result, Result-cases, ok, err,
}
use daemon_supply_chain.Contracts.{kind, lms_event_types, normalize_run_window}
use daemon_supply_chain.Contracts.Shifts.{leaves_on_duty, validate_lms_sequence_open}
use daemon_supply_chain.Checkpoint.{Checkpoint, read, write, advance_to}
use daemon_supply_chain.Queue.{
  Status, pending, retry_scheduled, started, completed, failed, skipped, Row, is_ready,
}
use daemon_supply_chain.Executor.State.{Env, Sim, Report, Registry, ◌>>=◌}
use daemon_supply_chain.Cycle.{
  lms_sequence, passes_lms, Progress, is_failure, has_failure, CycleReport, dispatch,
  next_checkpoint, close_cycle, run_simulation_cycle, Ended, summarize, list_ready,
}

-- Where the cycle ends, the file is that of `next_checkpoint` for the reports of the cycle; where it
-- raises, the file is as before.
abbrev Follows : ℕ → Checkpoint → Ended → Type 0
Follows current_time file (err e, s, file') = file' ≡ file
Follows current_time file (ok r, s, file') =
    (file' ≡ (if has_failure r.processed_events then file else some current_time))
    × (r.last_checkpoint ≡ file')

close_cycle-Follows :
    (env : Env) (window : String) (current_time : ℕ) (file : Checkpoint) (r : Result Progress × Sim)
    → Follows current_time file (close_cycle env window current_time file r)
unfolding next_checkpoint advance_to write read summarize list_ready ◌>>=◌
close_cycle-Follows env window current_time file (err e, s) = refl
close_cycle-Follows env window current_time file (ok p, s) = (refl, refl)

run_simulation_cycle-Follows :
    (env : Env) (registry : Registry) (run_window : Option String) (current_time : ℕ)
    (file : Checkpoint) (s : Sim)
    → Follows current_time file (run_simulation_cycle env registry run_window current_time file s)
unfolding run_simulation_cycle
run_simulation_cycle-Follows env registry run_window current_time file s =
    elim (Result-cases (normalize_run_window run_window)) [
      | inl (e, refused) ↦ rw (refused, run_simulation_cycle) refl
      | inr (window, known) ↦
          rw (known, run_simulation_cycle)
            (close_cycle-Follows env window current_time file
              (dispatch env registry window current_time (read file) s))
    ]

-- Some event failed or waits for a retry.
abbrev pub IsHeldUp : List Report → Type 0
IsHeldUp [] = ⊥
IsHeldUp (r ∷ rs) = ((r.status ≡ failed) ⊎ (r.status ≡ retry_scheduled)) ⊎ IsHeldUp rs

-- No event failed, and none waits for a retry.
abbrev pub IsClean : List Report → Type 0
IsClean = All (λ r. (r.status ≢ failed) × (r.status ≢ retry_scheduled))

-- Where the cycle raises, the file is as before; where it ends, the file is as before with an event that
-- failed or waits, and has the time of the cycle with none.
abbrev pub KeepsCheckpoint : ℕ → Checkpoint → Ended → Type 0
KeepsCheckpoint current_time file (err e, s, file') = file' ≡ file
KeepsCheckpoint current_time file (ok r, s, file') =
    ((IsHeldUp r.processed_events × (file' ≡ file))
      ⊎ (IsClean r.processed_events × (file' ≡ some current_time)))
    × (r.last_checkpoint ≡ file')

by_status :
    (s : Status)
    → ((is_failure s ≡ true) × ((s ≡ failed) ⊎ (s ≡ retry_scheduled)))
      ⊎ ((is_failure s ≡ false) × (s ≢ failed) × (s ≢ retry_scheduled))
by_status failed = inl (refl, inl refl)
by_status retry_scheduled = inl (refl, inr refl)
by_status pending = inr (refl, (λ e. cc), λ e. cc)
by_status started = inr (refl, (λ e. cc), λ e. cc)
by_status completed = inr (refl, (λ e. cc), λ e. cc)
by_status skipped = inr (refl, (λ e. cc), λ e. cc)

has_failure-cases :
    (rs : List Report)
    → ((has_failure rs ≡ true) × IsHeldUp rs) ⊎ ((has_failure rs ≡ false) × IsClean rs)
unfolding has_failure
has_failure-cases [] = inr (refl, tt)
has_failure-cases (r ∷ rs) = elim (by_status r.status) [
  | inl (fails, held) ↦ inl (rw fails refl, inl held)
  | inr (passes, not_failed, not_waiting) ↦ elim (has_failure-cases rs) [
    | inl (fails, held) ↦ inl (rw passes fails, inr held)
    | inr (rest, all_clean) ↦ inr (rw passes rest, ((not_failed, not_waiting), all_clean))
  ]
]

Follows-KeepsCheckpoint :
    (current_time : ℕ) (file : Checkpoint) (o : Ended)
    → Follows current_time file o
    → KeepsCheckpoint current_time file o
Follows-KeepsCheckpoint current_time file (err e, s, file') h = h
Follows-KeepsCheckpoint current_time file (ok r, s, file') h =
    elim (has_failure-cases r.processed_events) [
      | inl (fails, held) ↦ (inl (held, rw fails at h.0), h.1)
      | inr (passes, clean) ↦ (inr (clean, rw passes at h.0), h.1)
    ]

-- Where a cycle returns, either one of its events has the status FAILED or RETRY_SCHEDULED and the
-- checkpoint stays, or none has and the checkpoint is moved to the time of the cycle; the report
-- names the checkpoint that is left. Where the cycle raises, the checkpoint stays.
pub run_simulation_cycle-KeepsCheckpoint :
    (env : Env) (registry : Registry) (run_window : Option String) (current_time : ℕ)
    (file : Checkpoint) (s : Sim)
    → KeepsCheckpoint current_time file
        (run_simulation_cycle env registry run_window current_time file s)
run_simulation_cycle-KeepsCheckpoint env registry run_window current_time file s =
    Follows-KeepsCheckpoint current_time file _
      (run_simulation_cycle-Follows env registry run_window current_time file s)

-- An event of a shift that opens a shift, or opens or closes a break, does not pass the shift check
-- of a cycle, whatever the queue.
pub passes_lms_open :
    (rows : List Row) (event_type : String)
    → elem event_type lms_event_types ≡ true
    → leaves_on_duty (kind event_type) ≡ true
    → passes_lms rows event_type ≡ false
unfolding passes_lms
passes_lms_open rows event_type shift opens =
    rw (shift, passes_lms) (validate_lms_sequence_open (lms_sequence rows) event_type opens)

moved :
    (current_time : ℕ) (file : Checkpoint) (o : Ended) (r : CycleReport)
    → Follows current_time file o
    → o.0 ≡ ok r
    → has_failure r.processed_events ≡ false
    → o.2 ≡ some current_time
moved current_time file (err e, s, file') r k h clean = cc
moved current_time file (ok r', s, file') r k h clean =
    let same : r' ≡ r = cc in
    let clean' : has_failure r'.processed_events ≡ false = rw same clean in rw clean' at k.0

late : (target t : ℕ) (row : Row) → row.scheduled_time < t → is_ready target (some t) row ≡ false
unfolding is_ready
late target t row past = ground arith

-- Where a cycle returns a report with no failure, a row that is scheduled before the time of that
-- cycle is not ready for any later listing that starts at the checkpoint which the cycle leaves,
-- whatever its status.
pub is_ready_past :
    (env : Env) (registry : Registry) (run_window : Option String) (current_time target : ℕ)
    (file : Checkpoint) (s : Sim) (r : CycleReport) (row : Row)
    → let (outcome, s', file') = run_simulation_cycle env registry run_window current_time file s in
      outcome ≡ ok r
      → has_failure r.processed_events ≡ false
      → row.scheduled_time < current_time
      → is_ready target (read file') row ≡ false
unfolding read
is_ready_past env registry run_window current_time target file s r row e clean past =
    rw
      (moved current_time file (run_simulation_cycle env registry run_window current_time file s) r
        (run_simulation_cycle-Follows env registry run_window current_time file s) e clean)
      (late target current_time row past)
