-- ===== src/Seeds.antt =====
-- simulator/core/multi_domain.py: the root events that are put into the queue of a run, in memory.
pub mod Total
use Prim.Native.String.{◌++◌ as text_append}
use daemon_supply_chain.Common.{
  ℕ, suc, ◌+◌, ◌*◌, String, ◌≡◌, refl, arith, inl, inr, leb, if◌then◌else◌, Bool, true, false,
  Bool-cases, none, some, List, [], ◌∷◌, map, Error, value_error, Result, ok, err,
}
use daemon_supply_chain.Values.{bool, text, time, Fields, end, field}
use daemon_supply_chain.Timing.{microseconds_per_minute}
use daemon_supply_chain.Queue.{pending, Queue, NewEvent, insert_future_event}

-- An entry of ROOT_EVENTS.
pub record Root : Type 0 where
  pub event_type : String
  pub aggregate_type : String
  pub prefix : String
  pub domain : String

abbrev pub root : String → String → String → String → Root
root event_type aggregate_type prefix domain = record {
  event_type = event_type;
  aggregate_type = aggregate_type;
  prefix = prefix;
  domain = domain;
}

abbrev pub root_events : List Root
root_events =
    root "CustomerOrderCreated" "orders" "ORDER" "outbound"
    ∷ root "WorkerShiftStarted" "warehouse_workers" "WORKER" "warehouse"
    ∷ root "DemandForecastUpdated" "forecasts" "FORECAST" "planning"
    ∷ root "SeasonalDemandSpike" "demand_signals" "SEASON" "planning"
    ∷ root "HeavyWeatherCondition" "weather" "WEATHER" "transportation"
    ∷ []

-- The fresh ids of one call by the number of the draw, and the text of the start time.
pub record SeedEnv : Type 0 where
  pub now : ℕ
  pub uuid : ℕ → String
  pub suffix : String

-- What is reported of an event.
pub record Seeded : Type 0 where
  pub event_id : String
  pub event_type : String
  pub domain : String
  pub scheduled_time : ℕ

abbrev pub scheduled : ℕ → ℕ → ℕ
scheduled start_time offset = start_time + offset * 2 * microseconds_per_minute

unfoldable pub seed_payload : SeedEnv → ℕ → ℕ → Root → String → Fields
seed_payload env start_time offset r correlation_id = field "domain" (text r.domain) (
    field "domain_signal" (bool true) (
      field "event_type" (text r.event_type) (
        field "aggregate_type" (text r.aggregate_type) (
          field "aggregate_id" (text (text_append r.prefix (text_append "-" env.suffix))) (
            field "correlation_id" (text correlation_id) (
              field "event_created_time" (time start_time) (
                field "event_scheduled_time" (time (scheduled start_time offset)) (
                  field "current_state" (text "CREATED") (
                    field "next_state" (text "CREATED")
                      (field "priority" (text "MEDIUM") end))))))))))

-- The event of one entry; its row and its payload draw an id of their own.
unfoldable pub seed_event : SeedEnv → ℕ → ℕ → Root → NewEvent
seed_event env start_time offset r = record {
  event_type = r.event_type;
  aggregate_type = r.aggregate_type;
  aggregate_id = text_append r.prefix (text_append "-" env.suffix);
  correlation_id = env.uuid (3 * offset);
  payload = seed_payload env start_time offset r (env.uuid (3 * offset + 1));
  scheduled_time = some (scheduled start_time offset);
  status = pending;
  event_id = none;
  priority = "MEDIUM";
  retry_count = 0;
  max_retry_count = 3;
  next_retry_time = none;
}

unfoldable pub seeded : SeedEnv → ℕ → ℕ → Root → Queue → Seeded × Queue
seeded env start_time offset r queue =
    let inserted =
      insert_future_event env.now (env.uuid (3 * offset + 2)) (seed_event env start_time offset r)
        queue in
    (
      record {
        event_id = inserted.0;
        event_type = r.event_type;
        domain = r.domain;
        scheduled_time = scheduled start_time offset;
      },
      inserted.1,
    )

-- `seeded.append(…)`, in front of what the later rounds report.
abbrev pub also : Seeded → Result (List Seeded) → Result (List Seeded)
also s (ok seeds) = ok (s ∷ seeds)
also s (err e) = err e

-- The loop over the entries, from an offset.
unfoldable pub seed_from : SeedEnv → ℕ → ℕ → List Root → Queue → Result (List Seeded) × Queue
seed_from env start_time offset [] queue = (ok [], queue)
seed_from env start_time offset (r ∷ roots) queue =
    let first = seeded env start_time offset r queue in
    let rest = seed_from env start_time (suc offset) roots first.1 in
    if leb (scheduled start_time offset) start_time
    then (err value_error, queue)
    else (also first.0 rest.0, rest.1)

-- `seed_multi_domain_events` with a queue and a start time.
unfoldable pub seed_multi_domain_events : SeedEnv → ℕ → Queue → Result (List Seeded) × Queue
seed_multi_domain_events env start_time queue = seed_from env start_time 1 root_events queue
