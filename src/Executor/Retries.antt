-- ===== src/Executor/Retries.antt =====
-- event_executor.py: how an event whose handler raises is tried again.
use daemon_supply_chain.Common.{
  ℕ, ◌+◌, ◌*◌, ◌-◌, ◌^◌, ◌≤◌, ◌<◌, ◌≡◌, ◌⊎◌, String, refl, inl, inr, false, none, some, arith, leb,
  Bool-cases, ok,
}
use daemon_supply_chain.Values.{num, Fields, to_int}
use daemon_supply_chain.Queue.{retry_scheduled, failed, Row}
use daemon_supply_chain.Executor.State.{Env, Sim, Report, ◌>>=◌, ◌>>◌, mark, mark_execution, write}
use daemon_supply_chain.Executor.Failure.{
  is_idempotent_noop, get_default, int_or_raise, compute_retry_interval, failure_report,
  finish_failure, next_retry, schedule_retry, on_exception,
}

-- The minutes to wait after a number of tries: five, doubled with every try before, and sixty at most.
abbrev pub IsWait : ℕ → ℕ → Type 0
IsWait tried minutes =
    ((minutes ≡ 5 * 2 ^ tried) × (minutes ≤ 60)) ⊎ ((minutes ≡ 60) × (60 < 5 * 2 ^ tried))

-- Another try at a time past the one that was scheduled.
pub record IsAgain (row : Row) (tried most : ℕ) (r : Report) : Type 0 where
  pub within : tried < most
  pub waits : r.status ≡ retry_scheduled
  pub minutes : ℕ
  pub next : r.next_retry_time ≡ some (row.scheduled_time + minutes * 60000000)
  pub interval : IsWait tried minutes

-- No other try.
pub record IsGivenUp (tried most : ℕ) (r : Report) : Type 0 where
  pub beyond : most ≤ tried
  pub fails : r.status ≡ failed
  pub no_next : r.next_retry_time ≡ none

compute_retry_interval-IsWait : (tried : ℕ) → IsWait tried (compute_retry_interval (tried + 1))
unfolding compute_retry_interval
compute_retry_interval-IsWait tried =
    let one_less : (tried + 1) - 1 ≡ tried = omega arith in
    rw one_less (elim (Bool-cases (leb (5 * 2 ^ tried) 60)) [
      | inl small ↦ rw small (inl (refl, ground (arith, small)))
      | inr large ↦ rw large (inr (refl, ground (arith, large)))
    ])

module _ (env : Env) (i : ℕ) (row : Row) (error : String) (started : ℕ) (payload : Fields)
    (tried most : ℕ) where
  abbrev again : Report
  again =
      failure_report row retry_scheduled error (tried + 1) most (some (next_retry row (tried + 1)))

  again-IsAgain : tried < most → IsAgain row tried most again
  unfolding next_retry
  again-IsAgain within = record {
    within = within;
    waits = refl;
    minutes = compute_retry_interval (tried + 1);
    next = refl;
    interval = compute_retry_interval-IsWait tried;
  }

  -- Where a handler raises an error that is not one of repetition, and the payload gives the
  -- counts, the executor returns a report with the raised count: RETRY_SCHEDULED where fewer tries
  -- were made than the limit, with a next time that is past the scheduled one by five minutes,
  -- doubled with every try before and capped at sixty; or FAILED with no next time where the limit
  -- was reached.
  pub on_exception-IsAgain :
      (s : Sim)
      → to_int env.texts (get_default "retry_count" (num 0) payload) ≡ some tried
      → to_int env.texts (get_default "max_retry_count" (num 3) payload) ≡ some most
      → is_idempotent_noop error ≡ false
      → (r : Report) × ((on_exception env i row error started payload s).0 ≡ ok r)
        × (r.retry_count ≡ some (tried + 1))
        × (IsAgain row tried most r ⊎ IsGivenUp tried most r)
  unfolding on_exception int_or_raise finish_failure schedule_retry ◌>>=◌ ◌>>◌ mark mark_execution
      write
  on_exception-IsAgain s ht hm other = elim (Bool-cases (leb (tried + 1) most)) [
    | inl within ↦
        (again, rw (ht, hm, other, within) refl, refl, inl (again-IsAgain (ground (arith, within))))
    | inr beyond ↦ (
      failure_report row failed error (tried + 1) most none,
      rw (ht, hm, other, beyond) refl,
      refl,
      inr (record { beyond = ground (arith, beyond); fails = refl; no_next = refl }),
    )
  ]
