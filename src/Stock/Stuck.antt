-- ===== src/Stock/Stuck.antt =====
-- A cycle count that was created waits for its own worker.
use daemon_supply_chain.Common.{
  ℕ, suc, ◌-◌, String, ◌≡◌, refl, ap, subst, inl, inr, arith, ◌==◌, eq_refl, true, false,
  Bool-cases, if◌then◌else◌, some, Option-cases, List, [], ◌∷◌, ◌++◌, length, map, any, find, All,
  All-append, All-filter, ok, err, failure,
}
use daemon_supply_chain.Common.Sorting.{All-sort_by, All-mono, IsIn-itself, filter-IsIn}
use daemon_supply_chain.Common.Stateful.{
  Holds, Holds-mono, Holds-then_pure, Holds-settle, transaction, ◌>>=◌, ◌>>◌,
}
use daemon_supply_chain.Ids.{next_task_id}
use daemon_supply_chain.Stock.{Inventory, CountTask, Worker, Db, Env}
use daemon_supply_chain.Stock.Queries.{one_of, is_task_id, insert_count_task, publish}
use daemon_supply_chain.Stock.Chosen.{one_of-All, first-All}
use daemon_supply_chain.Stock.Counts.{
  find_countable, is_counted, count_workers, count_row, write_count, count_at, create_count,
  generate_cycle_count_created,
}
use daemon_supply_chain.Stock.TaskStarted.{
  AnyTask, of_picking, of_packing, of_receiving, of_count, all_tasks, next_created, worker_of,
  start_with_worker, start_next, generate_task_started,
}

-- A task of the id is for the worker.
abbrev IsFor : String → String → AnyTask → Type 0
IsFor id worker_id t = (t.task_id == id) ≡ true → t.assigned_worker_id ≡ some worker_id

-- Each task of the id is for the worker, who is busy.
record Waits (id : String) (u : Db) : Type 0 where
  worker_id : String
  tasks : All (IsFor id worker_id) (all_tasks u)
  worker : Worker
  found : find (λ w. w.worker_id == worker_id) u.workers ≡ some worker
  busy : (worker.current_status == "AVAILABLE") ≡ false

-- Where no row has the id, nothing is to be shown.
none-All :
    {A : Type 0} (f : A → AnyTask) (id worker_id : String) (xs : List A)
    → any (λ x. (f x).task_id == id) xs ≡ false
    → All (IsFor id worker_id) (map f xs)
none-All f id worker_id [] h = tt
none-All f id worker_id (x ∷ xs) h = elim (Bool-cases ((f x).task_id == id)) [
  | inl same ↦ absurd (ground arith)
  | inr other ↦ ((λ e. cc), none-All f id worker_id xs (rw other at h))
]

map-append : {A B : Type 0} (f : A → B) (xs ys : List A) → map f (xs ++ ys) ≡ map f xs ++ map f ys
map-append f [] ys = refl
map-append f (x ∷ xs) ys = ap (λ l. f x ∷ l) (map-append f xs ys)

abbrev make_busy : Worker → Worker
make_busy w = record w { current_status = "BUSY" }

find_busy :
    (id : String) (ws : List Worker)
    → any (λ w. w.worker_id == id) ws ≡ true
    → (x : Worker) × (find
          (λ w. w.worker_id == id)
          (map (λ w. if w.worker_id == id then make_busy w else w) ws)
        ≡ some x)
      × ((x.current_status == "AVAILABLE") ≡ false)
find_busy id [] h = cc
find_busy id (w ∷ ws) h = elim (Bool-cases (w.worker_id == id)) [
  | inl same ↦ rw (same, same) (make_busy w, refl, refl)
  | inr other ↦ rw (other, other) (find_busy id ws (rw other at h))
]

module _ (env : Env) (row : Inventory) (t : CountTask) (worker : Worker)
    (assigned : t.assigned_worker_id ≡ some worker.worker_id) where
  all-IsFor :
      (s : Db)
      → is_task_id t.task_id s ≡ false
      → All
          (IsFor t.task_id worker.worker_id)
          (all_tasks (record s { count_tasks = s.count_tasks ++ t ∷ [] }))
  all-IsFor s free =
      let P : AnyTask → Type 0 = IsFor t.task_id worker.worker_id in
      let counts : All P (map of_count (s.count_tasks ++ t ∷ [])) =
        rw (map-append of_count s.count_tasks (t ∷ [])) (
          All-append P _ _
            (none-All of_count t.task_id worker.worker_id s.count_tasks (ground arith))
            ((λ e. assigned), tt)) in
      All-append P _ _ (none-All of_picking t.task_id worker.worker_id s.tasks (ground arith)) (
        All-append P _ _
          (none-All of_packing t.task_id worker.worker_id s.packing_tasks (ground arith))
          (All-append P _ _
            (none-All of_receiving t.task_id worker.worker_id s.receiving_tasks (ground arith))
            counts))

  write_count-Waits :
      (s : Db)
      → any (λ w. w.worker_id == worker.worker_id) s.workers ≡ true
      → Holds (λ s id u. Waits id u) s (write_count env row t worker.worker_id s)
  unfolding write_count insert_count_task publish ◌>>=◌ ◌>>◌
  write_count-Waits s there = elim (Bool-cases (is_task_id t.task_id s)) [
    | inl taken ↦ rw taken tt
    | inr free ↦
        let busy = find_busy worker.worker_id s.workers there in
        rw free (
          Holds-then_pure (λ s id u. Waits id u) s _ _ t.task_id
            (record {
              worker_id = worker.worker_id;
              tasks = all-IsFor s free;
              worker = busy.0;
              found = busy.1;
              busy = busy.2;
            }))
  ]

module _ (env : Env) (row : Inventory) (location_id : String) where
  abbrev IsThere : Db → Worker → Type 0
  IsThere s w = any (λ x. x.worker_id == w.worker_id) s.workers ≡ true

  abbrev drawn_at : Db → ℕ
  drawn_at s = env.randint s.drawn 0 (length (count_workers row.warehouse_id s) - 1)

  abbrev drawn_all : Db → Db
  drawn_all s = record s {
    drawn = suc (suc (suc s.drawn));
    sequences = (next_task_id s.sequences).1;
  }

  workers-IsThere : (s : Db) → All (IsThere s) (count_workers row.warehouse_id s)
  unfolding count_workers
  workers-IsThere s =
      All-mono _ (IsThere s) (λ w h. h.1 (λ x. x.worker_id == w.worker_id) (eq_refl w.worker_id)) _
        (filter-IsIn _ s.workers s.workers (IsIn-itself s.workers))

  count_at-Waits : (s : Db) → Holds (λ s id u. Waits id u) s (count_at env row location_id s)
  unfolding count_at count_row ◌>>=◌ ◌>>◌
  count_at-Waits s = elim (Bool-cases (is_counted row.product_id location_id s)) [
    | inl counted ↦ rw counted tt
    | inr free ↦ elim (Option-cases (one_of (drawn_at s) (count_workers row.warehouse_id s))) [
      | inl nobody ↦ rw (free, nobody) tt
      | inr (worker, chosen) ↦
          rw (free, chosen)
            (Holds-mono (λ s id u. Waits id u) (λ s id u. Waits id u) (drawn_all s) s _
              (λ id u h. h)
              (write_count-Waits env row _ worker refl (drawn_all s)
                (one_of-All (IsThere s) _ (drawn_at s) worker (workers-IsThere s) chosen)))
    ]
  ]

create_count-Waits : (env : Env) (s : Db) → Holds (λ s id u. Waits id u) s (create_count env s)
unfolding create_count ◌>>=◌
create_count-Waits env s = elim (Option-cases (find_countable s)) [
  | inl nothing ↦ rw nothing tt
  | inr (placed, found) ↦ rw found (count_at-Waits env placed.0 placed.1 s)
]

generate_cycle_count_created-Waits :
    (env : Env) (s : Db) → Holds (λ s id u. Waits id u) s (generate_cycle_count_created env s)
unfolding generate_cycle_count_created transaction
generate_cycle_count_created-Waits env s =
    Holds-settle (λ s id u. Waits id u) s (create_count env s) (create_count-Waits env s)

-- After a cycle count was created, while its task is the first that was created and not started,
-- the start of the next task raises that the worker is not available and changes nothing.
pub generate_task_started_stuck :
    (env later : Env) (s u : Db) (id : String) (t : AnyTask)
    → generate_cycle_count_created env s ≡ (ok id, u)
    → next_created u ≡ some t
    → (t.task_id == id) ≡ true
    → generate_task_started later u ≡ (err (failure "Worker not available"), u)
unfolding next_created generate_task_started start_next start_with_worker worker_of transaction
    ◌>>=◌ ◌>>◌
generate_task_started_stuck env later s u id t created next same =
    let w : Waits id u =
      subst (Holds (λ s id u. Waits id u) s) created (generate_cycle_count_created-Waits env s) in
    let assigned : t.assigned_worker_id ≡ some w.worker_id =
      first-All (IsFor id w.worker_id) _ t
        (All-sort_by _ _ _ (All-filter (IsFor id w.worker_id) _ (all_tasks u) w.tasks)) next same in
    rw (next, assigned, w.found, w.busy) refl
