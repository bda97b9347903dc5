-- ===== src/Seeds/Total.antt =====
-- multi_domain.py: the seeding never raises, and puts the five root events into the queue.
use daemon_supply_chain.Common.{
  ℕ, suc, ◌+◌, String, ◌≡◌, refl, ap, ◌∙◌, ◌⊎◌, inl, inr, arith, leb, ◌==◌, ◌&&◌, eq_refl, Bool,
  true, false, Bool-cases, some, Option-cases, List, [], ◌∷◌, ◌++◌, map, any, find, All, Result, ok,
}
use daemon_supply_chain.Queue.{Row, Queue, NewEvent, is_duplicate, new_row, insert_future_event}
use daemon_supply_chain.Queue.Insert.{IsUnique, insert_future_event-IsUnique}
use daemon_supply_chain.Seeds.{
  Root, root_events, SeedEnv, Seeded, also, scheduled, seed_event, seeded, seed_from,
  seed_multi_domain_events,
}

-- The row has the id and the type.
abbrev pub is_of : String → String → Row → Bool
is_of event_id event_type row = row.event_id == event_id && row.event_type == event_type

any-snoc :
    {A : Type 0} (q : A → Bool) (xs : List A) (x : A)
    → (any q xs ≡ true) ⊎ (q x ≡ true)
    → any q (xs ++ x ∷ []) ≡ true
any-snoc q [] x h = ground (arith, h)
any-snoc q (y ∷ ys) x h = elim (Bool-cases (q y)) [
  | inl here ↦ rw here refl
  | inr other ↦ rw other (any-snoc q ys x (elim h [ inl a ↦ inl (rw other at a) | inr b ↦ inr b ]))
]

duplicate-is_of :
    (e : NewEvent) (rows : List Row) (row : Row)
    → find (is_duplicate e) rows ≡ some row
    → any (is_of row.event_id e.event_type) rows ≡ true
unfolding is_duplicate
duplicate-is_of e [] row h = cc
duplicate-is_of e (r ∷ rows) row h = elim (Bool-cases (is_duplicate e r)) [
  | inl same ↦
      let it : r ≡ row = ground (arith, rw same at h) in
      let type : (r.event_type == e.event_type) ≡ true = ground (arith, same) in
      let id : (r.event_id == row.event_id) ≡ true = rw it (eq_refl row.event_id) in
      rw (id, type) refl
  | inr other ↦ let rest = duplicate-is_of e rows row (rw other at h) in ground (arith, rest)
]

module _ (now : ℕ) (uuid : String) (e : NewEvent) (q : Queue) where
  -- The id that an insertion gives is that of a row of the event's type.
  inserted-is_of :
      any
        (is_of (insert_future_event now uuid e q).0 e.event_type)
        (insert_future_event now uuid e q).1.rows
      ≡ true
  unfolding insert_future_event new_row
  inserted-is_of = elim (Option-cases (find (is_duplicate e) q.rows)) [
    | inl fresh ↦
        rw (fresh, insert_future_event)
          (any-snoc _ q.rows (new_row now uuid e)
            (inr (rw (eq_refl (new_row now uuid e).event_id, eq_refl e.event_type) refl)))
    | inr (row, found) ↦ rw (found, insert_future_event) (duplicate-is_of e q.rows row found)
  ]

  -- No insertion takes a row away.
  inserted-any :
      (p : Row → Bool)
      → any p q.rows ≡ true
      → any p (insert_future_event now uuid e q).1.rows ≡ true
  unfolding insert_future_event
  inserted-any p h = elim (Option-cases (find (is_duplicate e) q.rows)) [
    | inl fresh ↦ rw (fresh, insert_future_event) (any-snoc p q.rows (new_row now uuid e) (inl h))
    | inr (row, found) ↦ rw (found, insert_future_event) h
  ]

-- The reports of the entries, from an offset: type, domain and minutes past the start.
abbrev reports_from : ℕ → ℕ → List Root → List (String × String × ℕ)
reports_from start_time offset [] = []
reports_from start_time offset (r ∷ roots) =
    (r.event_type, r.domain, scheduled start_time offset)
    ∷ reports_from start_time (suc offset) roots

abbrev pub report : Seeded → String × String × ℕ
report s = (s.event_type, s.domain, s.scheduled_time)

-- Some entries, as they are reported, each with a row of its id and type, and no row gone.
record IsSeeded (start_time offset : ℕ) (roots : List Root) (queue : Queue)
    (o : Result (List Seeded) × Queue) : Type 0 where
  seeds : List Seeded
  returned : o.0 ≡ ok seeds
  reported : map report seeds ≡ reports_from start_time offset roots
  filed : All (λ (s : Seeded). any (is_of s.event_id s.event_type) o.1.rows ≡ true) seeds
  kept : (p : Row → Bool) → any p queue.rows ≡ true → any p o.1.rows ≡ true
  unique : IsUnique o.1.rows

-- What a seeding at a time of the start has done to a queue.
pub record IsSeeding (start_time : ℕ) (o : Result (List Seeded) × Queue) : Type 0 where
  pub seeds : List Seeded
  pub returned : o.0 ≡ ok seeds
  pub reported :
      map report seeds
      ≡ ("CustomerOrderCreated", "outbound", start_time + 120000000)
        ∷ ("WorkerShiftStarted", "warehouse", start_time + 240000000)
        ∷ ("DemandForecastUpdated", "planning", start_time + 360000000)
        ∷ ("SeasonalDemandSpike", "planning", start_time + 480000000)
        ∷ ("HeavyWeatherCondition", "transportation", start_time + 600000000)
        ∷ []
  pub filed : All (λ (s : Seeded). any (is_of s.event_id s.event_type) o.1.rows ≡ true) seeds
  pub unique : IsUnique o.1.rows

later : (start_time offset : ℕ) → leb (scheduled start_time (suc offset)) start_time ≡ false
later start_time offset = ground arith

with_first :
    (start_time offset : ℕ) (r : Root) (roots : List Root) (s : Seeded) (queue next : Queue)
    (o : Result (List Seeded) × Queue)
    → report s ≡ (r.event_type, r.domain, scheduled start_time offset)
    → any (is_of s.event_id s.event_type) next.rows ≡ true
    → ((p : Row → Bool) → any p queue.rows ≡ true → any p next.rows ≡ true)
    → IsSeeded start_time (suc offset) roots next o
    → IsSeeded start_time offset (r ∷ roots) queue (also s o.0, o.1)
with_first start_time offset r roots s queue next o same its kept h = record {
  seeds = s ∷ h.seeds;
  returned = ap (also s) h.returned;
  reported =
      ap (λ t. t ∷ map report h.seeds) same
      ∙ ap (λ ts. (r.event_type, r.domain, scheduled start_time offset) ∷ ts) h.reported;
  filed = (h.kept _ its, h.filed);
  kept = λ p k. h.kept p (kept p k);
  unique = h.unique;
}

module _ (env : SeedEnv) (start_time : ℕ) where
  seed_from-IsSeeded :
      (offset : ℕ) (roots : List Root) (queue : Queue)
      → IsUnique queue.rows
      → IsSeeded start_time
          (suc offset)
          roots
          queue
          (seed_from env start_time (suc offset) roots queue)
  unfolding seed_from seeded seed_event
  seed_from-IsSeeded offset [] queue u = record {
    seeds = [];
    returned = refl;
    reported = refl;
    filed = tt;
    kept = λ p h. h;
    unique = u;
  }
  seed_from-IsSeeded offset (r ∷ roots) queue u =
      let step = seeded env start_time (suc offset) r queue in
      rw (later start_time offset) (
        with_first start_time (suc offset) r roots step.0 queue step.1 _ refl
          (inserted-is_of env.now _ (seed_event env start_time (suc offset) r) queue)
          (inserted-any env.now _ (seed_event env start_time (suc offset) r) queue)
          (seed_from-IsSeeded (suc offset) roots step.1
            (insert_future_event-IsUnique env.now _ _ queue u)))

  -- In a queue where no two live rows of one type share a correlation or an aggregate, the seeding
  -- returns, it never raises SimulationTimeError, and reports CustomerOrderCreated of outbound,
  -- WorkerShiftStarted of warehouse, DemandForecastUpdated and SeasonalDemandSpike of planning and
  -- HeavyWeatherCondition of transportation, in this order, at two, four, six, eight and ten
  -- minutes past the start; each id that it reports is that of a row of the reported type in the
  -- queue, and no two live rows share a cause.
  pub seed_multi_domain_events-IsSeeding :
      (queue : Queue)
      → IsUnique queue.rows
      → IsSeeding start_time (seed_multi_domain_events env start_time queue)
  unfolding seed_multi_domain_events
  seed_multi_domain_events-IsSeeding queue u =
      let h = seed_from-IsSeeded 0 root_events queue u in
      record {
        seeds = h.seeds;
        returned = h.returned;
        reported = h.reported;
        filed = h.filed;
        unique = h.unique;
      }
