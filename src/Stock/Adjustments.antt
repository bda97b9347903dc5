-- ===== src/Stock/Adjustments.antt =====
-- inventory_adjusted.py: what an adjustment writes, and that no transaction tells of it.
use daemon_supply_chain.Common.{
  nat_eq, ℕ, ◌+◌, ◌≡◌, ◌≢◌, refl, sym, ap, subst, ◌∙◌, inl, inr, arith, ◌==◌, Bool-cases, Option,
  none, some, Option-cases, List, [], ◌∷◌, ◌++◌, map, any, find, ok, if◌then◌else◌, Bool, true,
  false, not, ◌&&◌, filter, String,
}
use daemon_supply_chain.Common.Sorting.{IsIn-itself, filter-IsIn, All-sort_by}
use daemon_supply_chain.Stock.Chosen.{first-All}
use daemon_supply_chain.Stock.Capacity.{same_text}
use daemon_supply_chain.Common.Integers.{pos, is_zero, Exceeds, sub_ℕ-Exceeds}
use daemon_supply_chain.Common.Keyed.{
  Keyed, Keyed-KeyedIn, at_key, map-at_key_miss, find-All, find-passes,
}
use daemon_supply_chain.Common.Stateful.{
  Holds, Holds-then_pure, Does, Does-transaction, ◌>>=◌, ◌>>◌,
}
use daemon_supply_chain.Ids.{next_adjustment_id}
use daemon_supply_chain.Stock.{Inventory, CountTask, Adjustment, Db, Env}
use daemon_supply_chain.Stock.Queries.{has_inventory_id, has_count_id, publish}
use daemon_supply_chain.Stock.Ledger.{Entry, entry, by_id, IsSound, replay}
use daemon_supply_chain.Stock.CountsCompleted.{is_at, counted_stock}
use daemon_supply_chain.Stock.Adjusted.{
  needs_adjustment, find_discrepancy, adjustment_row, insert_adjustment, set_on_hand,
  mark_processed, write_adjustment, adjust_to, adjust, generate_inventory_adjusted,
}
use daemon_supply_chain.Stock.Receipts.{on_hand}

-- A task of the id that is still to be adjusted.
abbrev pub is_left : String → CountTask → Bool
is_left id t = t.task_id == id && not t.adjustment_processed

abbrev pub is_other : String → CountTask → Bool
is_other id t = not (t.task_id == id)

-- What an adjustment has found and done.
pub record IsAdjustment (env : Env) (s : Db) (x : Unit {0}) (u : Db) : Type 0 where
  pub task : CountTask
  pub found : find_discrepancy s ≡ some task
  pub completed : task.status ≡ "COMPLETED"
  pub discrepant : task.discrepancy_quantity ≢ pos 0
  pub unprocessed : task.adjustment_processed ≡ false
  pub row : Inventory
  pub counted : counted_stock task s ≡ some row
  pub same_product : row.product_id ≡ task.product_id
  pub same_warehouse : row.warehouse_id ≡ task.warehouse_id
  pub adjusted : ℕ
  pub received : task.received_quantity ≡ some adjusted
  pub stock :
      u.inventory
      ≡ map
          (λ r.
            if nat_eq r.inventory_id row.inventory_id
            then record r { on_hand_quantity = adjusted; last_updated_at = some env.wall_clock }
            else r)
          s.inventory
  pub note : Adjustment
  pub noted : u.adjustments ≡ s.adjustments ++ note ∷ []
  pub note_task : note.task_id ≡ task.task_id
  pub previous : note.previous_quantity ≡ row.on_hand_quantity
  pub difference :
      (note.adjusted_quantity ≡ adjusted)
      × Exceeds adjusted note.adjustment_difference row.on_hand_quantity
  pub settled : any (is_left task.task_id) u.count_tasks ≡ false
  pub others :
      filter (is_other task.task_id) u.count_tasks ≡ filter (is_other task.task_id) s.count_tasks
  pub journal : u.transactions ≡ s.transactions

abbrev processed_by : String → CountTask → CountTask
processed_by id t = if has_count_id id t then mark_processed t else t

processed-settled :
    (id : String) (ts : List CountTask) → any (is_left id) (map (processed_by id) ts) ≡ false
processed-settled id [] = refl
processed-settled id (t ∷ ts) = elim (Bool-cases (has_count_id id t)) [
  | inl mine ↦ rw (mine, mine) (processed-settled id ts)
  | inr other ↦ rw (other, other) (processed-settled id ts)
]

processed-others :
    (id : String) (ts : List CountTask)
    → filter (is_other id) (map (processed_by id) ts) ≡ filter (is_other id) ts
processed-others id [] = refl
processed-others id (t ∷ ts) = elim (Bool-cases (has_count_id id t)) [
  | inl mine ↦ rw (mine, mine) (processed-others id ts)
  | inr other ↦ rw (other, other, processed-others id ts) refl
]

-- What the query for a task has tested.
found-needs :
    (s : Db) (task : CountTask) → find_discrepancy s ≡ some task → needs_adjustment task ≡ true
unfolding find_discrepancy
found-needs s task found =
    (first-All _ _ task
      (All-sort_by _ _ _
        (filter-IsIn needs_adjustment s.count_tasks s.count_tasks (IsIn-itself s.count_tasks)))
      found).0

needs-discrepant :
    (task : CountTask) → needs_adjustment task ≡ true → task.discrepancy_quantity ≢ pos 0
needs-discrepant task h e =
    let zero_difference : is_zero task.discrepancy_quantity ≡ true = rw e refl in
    absurd (ground (arith, rw zero_difference at h))

module _ (env : Env) (s : Db) (task : CountTask) (found : find_discrepancy s ≡ some task)
    (row : Inventory) (counted : counted_stock task s ≡ some row) (adjusted : ℕ)
    (received : task.received_quantity ≡ some adjusted) where
  abbrev note : Adjustment
  note = adjustment_row env task row.on_hand_quantity adjusted (next_adjustment_id s.sequences).0

  stock_found :
      (row.product_id == task.product_id
        && row.warehouse_id == task.warehouse_id
        && is_at row.location_id task.location)
      ≡ true
  unfolding counted_stock
  stock_found = find-passes _ s.inventory row counted

  write_adjustment-IsAdjustment :
      Holds (IsAdjustment env) s (write_adjustment env task row adjusted s)
  unfolding write_adjustment insert_adjustment adjustment_row publish ◌>>=◌ ◌>>◌
  write_adjustment-IsAdjustment =
      elim (Bool-cases
        (any (λ (old : Adjustment). old.adjustment_id == note.adjustment_id) s.adjustments)) [
          | inl taken ↦ rw taken tt
          | inr free ↦ rw free (
              Holds-then_pure (IsAdjustment env) s _ _ tt (record {
                task = task;
                found = found;
                completed = same_text _ _ (ground (arith, found-needs s task found));
                discrepant = needs-discrepant task (found-needs s task found);
                unprocessed = ground (arith, found-needs s task found);
                row = row;
                counted = counted;
                same_product = same_text _ _ (ground (arith, stock_found));
                same_warehouse = same_text _ _ (ground (arith, stock_found));
                adjusted = adjusted;
                received = received;
                stock = refl;
                note = note;
                noted = refl;
                note_task = refl;
                previous = refl;
                difference = (refl, sub_ℕ-Exceeds adjusted row.on_hand_quantity);
                settled = processed-settled task.task_id s.count_tasks;
                others = processed-others task.task_id s.count_tasks;
                journal = refl;
              }))
        ]

adjust-IsAdjustment : (env : Env) → Does (IsAdjustment env) (adjust env)
unfolding adjust adjust_to ◌>>=◌ ◌>>◌
adjust-IsAdjustment env = record { at = λ s. by_task s }
  where
    by_quantity :
        (s : Db) (task : CountTask)
        → find_discrepancy s ≡ some task
        → (row : Inventory) → counted_stock task s ≡ some row
        → (o : Option ℕ) → task.received_quantity ≡ o
        → Holds (IsAdjustment env) s (adjust_to env task row o s)
    by_quantity s task found row counted none unknown = tt
    by_quantity s task found row counted (some adjusted) received =
        write_adjustment-IsAdjustment env s task found row counted adjusted received

    by_task : (s : Db) → Holds (IsAdjustment env) s (adjust env s)
    by_task s = elim (Option-cases (find_discrepancy s)) [
      | inl nothing ↦ rw nothing tt
      | inr (task, found) ↦ elim (Option-cases (counted_stock task s)) [
        | inl missing ↦ rw (found, missing) tt
        | inr (row, counted) ↦
            rw (found, counted) (by_quantity s task found row counted task.received_quantity refl)
      ]
    ]

-- An adjustment that returns found a COMPLETED count whose difference is not zero and that was not
-- adjusted before, and a row of its product and warehouse; it put the quantity counted on hand at
-- the rows of that row's id and changed nothing else of the stock but their time, noted for the
-- count the quantity before, the one counted and their difference, left no count of the count's id
-- to be adjusted and the counts of other ids as they were, and wrote no transaction.
pub generate_inventory_adjusted-IsAdjustment :
    (env : Env) → Does (IsAdjustment env) (generate_inventory_adjusted env)
unfolding generate_inventory_adjusted
generate_inventory_adjusted-IsAdjustment env = Does-transaction _ _ (adjust-IsAdjustment env)

total : List Entry → ℕ
total [] = 0
total (e ∷ es) = e.on_hand + total es

on_hand-total : (rows : List Inventory) → on_hand rows ≡ total (map entry rows)
unfolding total
on_hand-total [] = refl
on_hand-total (row ∷ rows) = ap (λ n. row.on_hand_quantity + n) (on_hand-total rows)

on_hand-set :
    (adjusted now id : ℕ) (rows : List Inventory) (row : Inventory)
    → Keyed by_id rows
    → find (has_inventory_id id) rows ≡ some row
    → on_hand (map (at_key by_id id (set_on_hand adjusted now)) rows) + row.on_hand_quantity
      ≡ on_hand rows + adjusted
on_hand-set adjusted now id [] row h found = cc
on_hand-set adjusted now id (r ∷ rows) row h found = elim (Bool-cases (has_inventory_id id r)) [
  | inl same ↦
      let e : r.inventory_id ≡ id = ground arith in
      let it : r ≡ row = ground (arith, rw same at found) in
      rw (same, map-at_key_miss by_id id (set_on_hand adjusted now) rows (rw e at h.0))
        (omega (arith, ap (λ (x : Inventory). x.on_hand_quantity) it))
  | inr other ↦
      rw other (omega (arith, on_hand-set adjusted now id rows row h.1 (rw other at found)))
]

module _ (opening : List Entry) (env : Env) (s u : Db)
    (sound : IsSound opening s.inventory s.transactions) (x : Unit {0})
    (h : IsAdjustment env s x u) where
  same_entries :
      IsSound opening u.inventory u.transactions → on_hand u.inventory ≡ on_hand s.inventory
  same_entries after =
      on_hand-total u.inventory
      ∙ ap total (after.explained ∙ ap (λ ts. replay ts opening) h.journal ∙ sym sound.explained)
      ∙ sym (on_hand-total s.inventory)

  not_explained : h.adjusted ≢ h.row.on_hand_quantity → ¬ IsSound opening u.inventory u.transactions
  unfolding counted_stock
  not_explained differ after = differ (
      omega (
        arith,
        same_entries after,
        ap on_hand h.stock,
        on_hand-set h.adjusted env.wall_clock h.row.inventory_id s.inventory h.row sound.keyed (
            find-All (λ r. find (has_inventory_id r.inventory_id) s.inventory ≡ some r) _
              s.inventory h.row h.counted (Keyed-KeyedIn by_id s.inventory sound.keyed)),
      ))

-- From rows of stock that are what the transactions make of opening entries: an adjustment that
-- returns, of a row that has another quantity than the one counted, leads to rows that are not what
-- the transactions make of these entries.
pub generate_inventory_adjusted_unexplained :
    (opening : List Entry) (env : Env) (s u : Db) (task : CountTask) (row : Inventory)
    (adjusted : ℕ)
    → IsSound opening s.inventory s.transactions
    → find_discrepancy s ≡ some task
    → counted_stock task s ≡ some row
    → task.received_quantity ≡ some adjusted
    → adjusted ≢ row.on_hand_quantity
    → generate_inventory_adjusted env s ≡ (ok tt, u)
    → ¬ IsSound opening u.inventory u.transactions
generate_inventory_adjusted_unexplained opening env s u task row adjusted sound found counted
      received differ returned =
    let h : IsAdjustment env s tt u =
      subst (Holds (IsAdjustment env) s) returned
        ((generate_inventory_adjusted-IsAdjustment env).at s) in
    let same_task : h.task ≡ task = ground (arith, h.found) in
    let same_row : h.row ≡ row =
      ground (arith, subst (λ t. counted_stock t s ≡ some h.row) same_task h.counted) in
    let same_quantity : h.adjusted ≡ adjusted = ground (
      arith,
      subst (λ (t : CountTask). t.received_quantity ≡ some h.adjusted) same_task h.received,
    ) in
    not_explained opening env s u sound tt h
      (λ e. differ (sym same_quantity ∙ e ∙ ap (λ (r : Inventory). r.on_hand_quantity) same_row))
