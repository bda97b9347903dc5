-- ===== src/Manager/Reach.antt =====
-- simulation_control.py: what holds of a run in every order of calls and worker blocks.
use daemon_supply_chain.Common.{
  ℕ, suc, ◌+◌, String, ◌≡◌, refl, ◌∙◌, inl, inr, Bool, true, false, Option, arith, if◌then◌else◌,
  Bool-cases, List, [], ◌∷◌, ◌++◌, length, All,
}
use daemon_supply_chain.Cycle.{CycleReport}
use daemon_supply_chain.Manager.{
  Run, RunStatus, running, paused, completed, failed, start, start_worker_locked, new_run, pause,
  resume, check_pause, set_running, advance, finish_run, fail_run, leave,
}
use daemon_supply_chain.Manager.Steps.{
  Phase, waiting, beginning, looping, cycling, ending, leaving, State, at, spawned, unless_paused,
  after_cycle, Block, lock_raised, first_check, set_to_running, top_of_loop, loop_exhausted,
  no_next_event, next_event, raised, ended, left, Step, paused_by_call, resumed_by_call, moved,
  Reaches, here, more,
}

-- A cycle runs at the time that its run has.
abbrev pub Fits : Run → Phase → Type 0
Fits r (cycling n time) = r.simulation_time ≡ time
Fits r _ = Unit

-- There is one worker where the record says so and none where it does not, and the time of the run is
-- that of the cycle under way.
pub record IsSound (s : State) : Type 0 where
  pub alone : length s.workers ≡ (if s.run.worker_active then 1 else 0)
  pub fits : All (Fits s.run) s.workers

-- Only the time of the run and the phase matter to the fit.
Fits-time : (r r' : Run) (p : Phase) → r'.simulation_time ≡ r.simulation_time → Fits r p → Fits r' p
Fits-time r r' (cycling n time) e f = e ∙ f
Fits-time r r' (looping n result) e f = tt
Fits-time r r' waiting e f = tt
Fits-time r r' beginning e f = tt
Fits-time r r' (ending result) e f = tt
Fits-time r r' leaving e f = tt

All-Fits :
    (r r' : Run) (ps : List Phase)
    → r'.simulation_time ≡ r.simulation_time
    → All (Fits r) ps
    → All (Fits r') ps
All-Fits r r' [] e h = tt
All-Fits r r' (p ∷ ps) e h = (Fits-time r r' p e h.0, All-Fits r r' ps e h.1)

one-IsSound : (r : Run) (p : Phase) → r.worker_active ≡ true → Fits r p → IsSound (at r (p ∷ []))
one-IsSound r p h f = record { alone = rw h refl; fits = (f, tt) }

check_pause-IsSound :
    (r : Run) (p : Phase)
    → r.worker_active ≡ true
    → Fits r p
    → IsSound (at (check_pause r).0 (unless_paused (check_pause r).1 p ++ []))
unfolding check_pause
check_pause-IsSound r p h f = elim (Bool-cases r.pause_requested) [
  | inl asked ↦ rw (asked, check_pause) (one-IsSound _ leaving h tt)
  | inr free ↦
      rw (free, check_pause)
        (one-IsSound (record r { pause_requested = false }) p h
          (Fits-time r (record r { pause_requested = false }) p refl f))
]

after_cycle-IsSound :
    (b : Bool) (r : Run) (n : ℕ) (result : CycleReport)
    → r.worker_active ≡ true
    → IsSound (at r (after_cycle b n result ++ []))
after_cycle-IsSound true r n result h = one-IsSound r (ending _) h tt
after_cycle-IsSound false r n result h = one-IsSound r (looping n _) h tt

-- A block of the one worker.
Block-IsSound :
    {r r' : Run} {p : Phase} {next : List Phase}
    → Block r p r' next
    → r.worker_active ≡ true
    → Fits r p
    → IsSound (at r' (next ++ []))
unfolding set_running advance finish_run fail_run leave
Block-IsSound (lock_raised r error) h f = one-IsSound _ leaving h tt
Block-IsSound (first_check r) h f = check_pause-IsSound r beginning h tt
Block-IsSound (set_to_running r) h f = one-IsSound _ (looping _ _) h tt
Block-IsSound (top_of_loop r n result lt) h f =
    check_pause-IsSound r (cycling (suc n) r.simulation_time) h refl
Block-IsSound (loop_exhausted r result) h f = one-IsSound r (ending _) h tt
Block-IsSound (no_next_event r n time result) h f = one-IsSound r (ending _) h tt
Block-IsSound (next_event r n time next result) h f =
    after_cycle-IsSound _ (advance time next result r) n result h
Block-IsSound (raised r n time error) h f = one-IsSound _ leaving h tt
Block-IsSound (ended r result) h f = one-IsSound _ leaving h tt
Block-IsSound (left r) h f = record { alone = refl; fits = tt }

-- There is no other worker beside it.
moved-IsSound :
    (r r' : Run) (p : Phase) (next xs ys : List Phase)
    → Block r p r' next
    → IsSound (at r (xs ++ p ∷ ys))
    → IsSound (at r' (xs ++ next ++ ys))
moved-IsSound r r' p next [] [] b h = elim (Bool-cases r.worker_active) [
  | inl active ↦ Block-IsSound b active h.fits.0
  | inr idle ↦ absurd (ground (arith, rw idle at h.alone))
]
moved-IsSound r r' p next [] (y ∷ ys) b h = absurd (crowded r.worker_active (length ys) h.alone)
  where
    crowded : (b : Bool) (n : ℕ) → suc (suc n) ≡ (if b then 1 else 0) → ⊥
    crowded true n e = omega (arith, e)
    crowded false n e = omega (arith, e)
moved-IsSound r r' p next (x ∷ xs) ys b h =
    absurd (crowded r.worker_active (length xs) (ap_length xs ∙ h.alone))
  where
    crowded : (b : Bool) (n : ℕ) → suc (suc (n + length ys)) ≡ (if b then 1 else 0) → ⊥
    crowded true n e = omega (arith, e)
    crowded false n e = omega (arith, e)

    ap_length : (xs : List Phase) → suc (suc (length xs + length ys)) ≡ suc (length (xs ++ p ∷ ys))
    ap_length [] = omega arith
    ap_length (x ∷ xs) = let rest = ap_length xs in omega (arith, rest)

-- A call of resume starts a thread exactly where a run is paused and has none.
pub record Resumes (r : Run) : Type 0 where
  pub time : (resume r).0.simulation_time ≡ r.simulation_time
  pub active : (resume r).0.worker_active ≡ (if (resume r).1 then true else r.worker_active)
  pub alone : (resume r).1 ≡ true → r.worker_active ≡ false

pub resume-Resumes : (r : Run) → Resumes r
unfolding resume start_worker_locked
resume-Resumes r = by_status r.status refl
  where
    by_status : (s : RunStatus) → r.status ≡ s → Resumes r
    by_status paused e = elim (Bool-cases r.worker_active) [
      | inl busy ↦ record {
        time = rw (e, busy, resume) refl;
        active = rw (e, busy, resume) refl;
        alone = rw (e, busy, resume) λ h. cc;
      }
      | inr free ↦ record {
        time = rw (e, free, resume, start_worker_locked) refl;
        active = rw (e, free, resume, start_worker_locked) refl;
        alone = λ h. free;
      }
    ]
    by_status running e = record {
      time = rw (e, resume) refl;
      active = rw (e, resume) refl;
      alone = rw (e, resume) λ h. cc;
    }
    by_status completed e = record {
      time = rw (e, resume) refl;
      active = rw (e, resume) refl;
      alone = rw (e, resume) λ h. cc;
    }
    by_status failed e = record {
      time = rw (e, resume) refl;
      active = rw (e, resume) refl;
      alone = rw (e, resume) λ h. cc;
    }

resumed-IsSound :
    (r : Run) (ws : List Phase)
    → IsSound (at r ws)
    → (b : Bool) → (resume r).1 ≡ b
    → IsSound (at (resume r).0 (spawned b ws))
resumed-IsSound r [] h true e =
    let resumes = resume-Resumes r in one-IsSound _ waiting (rw e at resumes.active) tt
resumed-IsSound r (w ∷ ws) h true e =
    let resumes = resume-Resumes r in absurd (ground (arith, rw (resumes.alone e) at h.alone))
resumed-IsSound r ws h false e =
    let resumes = resume-Resumes r in
    record {
      alone = rw (rw e at resumes.active) h.alone;
      fits = All-Fits r (resume r).0 ws resumes.time h.fits;
    }

-- No step breaks it: a thread is started only where there is none.
pub Step-IsSound : {s t : State} → IsSound s → Step s t → IsSound t
unfolding pause
Step-IsSound h (paused_by_call r ws) = record {
  alone = h.alone;
  fits = All-Fits r (pause r) ws refl h.fits;
}
Step-IsSound h (resumed_by_call r ws) = resumed-IsSound r ws h (resume r).1 refl
Step-IsSound h (moved r r' p next xs ys b) = moved-IsSound r r' p next xs ys b h

Reaches-IsSound : {s t : State} → IsSound s → Reaches s t → IsSound t
Reaches-IsSound h (here s) = h
Reaches-IsSound h (more step rest) = Reaches-IsSound (Step-IsSound h step) rest

abbrev pub started : ℕ → Option ℕ → String → Option String → State
started simulation_time duration_hours run_window correlation_id =
    let (r, spawns) = start simulation_time duration_hours run_window correlation_id in
    at r (spawned spawns [])

-- Whatever calls of pause and resume and blocks of any of its worker threads come in whatever
-- order, a run that start started has one worker thread where its record says that a worker is
-- active and none where it does not, never two; and while a worker is in a cycle the time of the
-- run is the one at which that cycle began.
pub start-IsSound :
    (simulation_time : ℕ) (duration_hours : Option ℕ) (run_window : String)
    (correlation_id : Option String) (s : State)
    → Reaches (started simulation_time duration_hours run_window correlation_id) s
    → IsSound s
unfolding start start_worker_locked new_run
start-IsSound simulation_time duration_hours run_window correlation_id s reach =
    Reaches-IsSound (record { alone = refl; fits = (tt, tt) }) reach
