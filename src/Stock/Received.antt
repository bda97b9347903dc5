-- ===== src/Stock/Received.antt =====
-- goods_received.py: what a call that returns has done, and that it is done once.
use daemon_supply_chain.Common.{
  ℕ, suc, ◌+◌, String, ◌≡◌, refl, sym, ap, subst, ◌∙◌, inl, inr, arith, ◌==◌, nat_eq, if◌then◌else◌,
  ◌&&◌, false, Bool-cases, Option, none, some, Option-cases, List, [], ◌∷◌, ◌++◌, map, find,
  failure, ok, err,
}
use daemon_supply_chain.Common.Keyed.{Keyed, find-passes}
use daemon_supply_chain.Common.Stateful.{
  Holds, Holds-mono, Holds-then_pure, Holds-continue, Holds-settle, Does, Does-bind, each, pure,
  transaction, ◌>>=◌, ◌>>◌,
}
use daemon_supply_chain.Stock.{ReceivingTask, ShipmentItem, Db, Env}
use daemon_supply_chain.Stock.Queries.{given, is_empty, has_receiving_id, publish}
use daemon_supply_chain.Stock.Ledger.{by_id, nat_eq_sound}
use daemon_supply_chain.Stock.Capacity.{same_text}
use daemon_supply_chain.Stock.GoodsReceived.{
  Received, Receipt, is_receiving, find_started_receiving, get_goods_received_time, expected,
  shipped, items_of_shipment, receive_item, complete_receiving, close_receiving, receive_goods,
  receive_started, generate_goods_received,
}
use daemon_supply_chain.Stock.Receipts.{
  Receives, on_hand, of_items, of_lines, booked, IsRun, each-Receives,
}

-- The tasks with the id are completed, the others stay.
abbrev pub received_by : ReceivingTask → ℕ → ℕ → ℕ → ReceivingTask → ReceivingTask
received_by task total minutes received_at t =
    if has_receiving_id task.task_id t
    then complete_receiving task.assigned_worker_id total minutes received_at t
    else t

pub record Closes (task : ReceivingTask) (total : ℕ) (s : Db) (u : Db) : Type 0 where
  pub minutes : ℕ
  pub received_at : ℕ
  pub tasks : u.receiving_tasks ≡ map (received_by task total minutes received_at) s.receiving_tasks

-- Behind the loop, only the tasks change among these tables.
abbrev AfterLoop : ReceivingTask → ℕ → Db → Db → Type 0
AfterLoop task total s u =
    Closes task total s u × (u.inventory ≡ s.inventory) × (u.transactions ≡ s.transactions)

close_receiving-AfterLoop :
    (env : Env) (t : ReceivingTask) (total minutes received_at : ℕ) (created : List Received)
    → Does
        (λ s x u. AfterLoop t total s u)
        (close_receiving env t total minutes received_at created)
unfolding close_receiving publish ◌>>=◌ ◌>>◌
close_receiving-AfterLoop env t total minutes received_at created = record {
  at = λ s. elim (Option-cases (given t.assigned_worker_id)) [
    | inl nobody ↦ rw nobody (
        Holds-then_pure (λ s x u. AfterLoop t total s u) s _ _ tt
          (record { minutes = minutes; received_at = received_at; tasks = refl }, refl, refl))
    | inr (id, someone) ↦ rw someone (
        Holds-then_pure (λ s x u. AfterLoop t total s u) s _ _ tt
          (record { minutes = minutes; received_at = received_at; tasks = refl }, refl, refl))
  ];
}

-- What a call that returns has found and done.
pub record IsReceipt (env : Env) (task_id : Option String) (s : Db) (r : Receipt) (u : Db)
    : Type 0 where
  pub task : ReceivingTask
  pub found : find_started_receiving env task_id s ≡ some task
  pub named : (r.task_id ≡ task.task_id) × (r.shipment_id ≡ task.shipment_id)
  pub counted :
      (r.received_quantity ≡ expected task)
      × (r.received_quantity ≡ shipped (items_of_shipment task.shipment_id s))
  pub lines : of_lines r.inventory ≡ of_items (items_of_shipment task.shipment_id s)
  pub journal :
      u.transactions
      ≡ s.transactions ++ booked task (items_of_shipment task.shipment_id s) r.inventory
  pub stock : on_hand u.inventory ≡ on_hand s.inventory + r.received_quantity
  pub closed : Closes task r.received_quantity s u

module _ (env : Env) (task_id : Option String) (s : Db) (keyed : Keyed by_id s.inventory)
    (task : ReceivingTask) (found : find_started_receiving env task_id s ≡ some task) where
  abbrev items : List ShipmentItem
  items = items_of_shipment task.shipment_id s

  abbrev drawn : Db
  drawn = record s { drawn = suc s.drawn }

  abbrev at : ℕ → ℕ
  at minutes = get_goods_received_time env.now task minutes

  abbrev receipt : List Received → Receipt
  receipt created = record {
    task_id = task.task_id;
    shipment_id = task.shipment_id;
    received_quantity = shipped items;
    inventory = created;
  }

  closed_receipt :
      (created : List Received) (t u : Db)
      → expected task ≡ shipped items
      → Receives task items drawn created t
      → AfterLoop task (shipped items) t u
      → IsReceipt env task_id s (receipt created) u
  closed_receipt created t u equal h k = record {
    task = task;
    found = found;
    named = (refl, refl);
    counted = (sym equal, refl);
    lines = h.lines;
    journal = k.2 ∙ h.journal;
    stock = ap on_hand k.1 ∙ h.stock;
    closed = record {
      minutes = k.0.minutes;
      received_at = k.0.received_at;
      tasks =
          k.0.tasks
          ∙ ap (map (received_by task (shipped items) k.0.minutes k.0.received_at)) h.tasks;
    };
  }

  abbrev Closing : List Received → Db → Receipt → Db → Type 0
  Closing created t r u = (r ≡ receipt created) × AfterLoop task (shipped items) t u

  closing :
      (minutes received_at : ℕ) (created : List Received)
      → Does (Closing created) (
          close_receiving env task (shipped items) minutes received_at created
          >> pure (receipt created))
  unfolding ◌>>◌
  closing minutes received_at created =
      Does-bind (λ t x u. AfterLoop task (shipped items) t u)
        (λ x u r v. (v ≡ u) × (r ≡ receipt created)) (Closing created) _ _
        (close_receiving-AfterLoop env task (shipped items) minutes received_at created)
        (λ x. record { at = λ t. (refl, refl) })
        λ t x u r v h e. (e.1, subst (λ w. AfterLoop task (shipped items) t w) (sym e.0) h)

  by_quantity :
      expected task ≡ shipped items
      → Holds (IsReceipt env task_id) s (
          (do
            created ← each (receive_item task (at (env.randint s.drawn 10 45))) items
            close_receiving env task
                (shipped items)
                (env.randint s.drawn 10 45)
                (at (env.randint s.drawn 10 45))
                created
            pure (receipt created))
            drawn)
  unfolding ◌>>=◌
  by_quantity equal =
      Holds-mono (λ d r u. IsReceipt env task_id s r u) (IsReceipt env task_id) drawn s _
        (λ r u h. h)
        (Holds-continue (IsRun task (at (env.randint s.drawn 10 45)) items) Closing
          (λ d r u. IsReceipt env task_id s r u) drawn _ _ _
          ((each-Receives task (at (env.randint s.drawn 10 45)) items).at drawn)
          (closing (env.randint s.drawn 10 45) (at (env.randint s.drawn 10 45)))
          λ created r u h k.
            subst (λ r. IsReceipt env task_id s r u) (sym k.0)
              (closed_receipt created _ u equal (h keyed) k.1))

  receive_goods-IsReceipt : Holds (IsReceipt env task_id) s (receive_goods env task s)
  unfolding receive_goods items_of_shipment ◌>>=◌ ◌>>◌
  receive_goods-IsReceipt = elim (Bool-cases (is_empty items)) [
    | inl nothing ↦ rw nothing tt
    | inr something ↦ elim (Bool-cases (nat_eq (expected task) (shipped items))) [
      | inr mismatch ↦ rw (something, mismatch) tt
      | inl equal ↦ rw (something, equal) (by_quantity (nat_eq_sound _ _ equal))
    ]
  ]

module _ (env : Env) (task_id : Option String) (s : Db) (keyed : Keyed by_id s.inventory) where
  -- Where the inventory ids are unique, a receipt that returns found a started task whose expected
  -- quantity is the sum of its shipment's items, has a line and a transaction for each item, in
  -- their order, raised what is on hand in all by that quantity, and completed the tasks of the id.
  pub generate_goods_received-IsReceipt :
      Holds (IsReceipt env (given task_id)) s (generate_goods_received env task_id s)
  unfolding generate_goods_received receive_started transaction ◌>>=◌
  generate_goods_received-IsReceipt =
      Holds-settle (IsReceipt env (given task_id)) s _
        (elim (Option-cases (find_started_receiving env (given task_id) s)) [
          | inl missing ↦ rw missing tt
          | inr (task, found) ↦
              rw found (receive_goods-IsReceipt env (given task_id) s keyed task found)
        ])

none_left :
    (id : String) (task : ReceivingTask) (total minutes received_at : ℕ) (ts : List ReceivingTask)
    → task.task_id ≡ id
    → find
        (λ t. has_receiving_id id t && is_receiving t)
        (map (received_by task total minutes received_at) ts)
      ≡ none
none_left id task total minutes received_at [] e = refl
none_left id task total minutes received_at (t ∷ ts) e =
    elim (Bool-cases (has_receiving_id task.task_id t)) [
      | inl same ↦ rw same (ground (arith, none_left id task total minutes received_at ts e))
      | inr other ↦ rw (other, rw e at other) (none_left id task total minutes received_at ts e)
    ]

module _ (env : Env) (id : String) (s u : Db) (r : Receipt) (keyed : Keyed by_id s.inventory)
    (has_id : (id == "") ≡ false)
    (returned : generate_goods_received env (some id) s ≡ (ok r, u)) where
  named_id : given (some id) ≡ some id
  named_id = rw has_id refl

  returned-IsReceipt : IsReceipt env (some id) s r u
  returned-IsReceipt =
      subst (λ o. Holds (IsReceipt env (some id)) s o) returned
        (subst (λ i. Holds (IsReceipt env i) s (generate_goods_received env (some id) s)) named_id
          (generate_goods_received-IsReceipt env (some id) s keyed))

  found_none : find_started_receiving env (some id) u ≡ none
  unfolding find_started_receiving
  found_none =
      let named : returned-IsReceipt.task.task_id ≡ id = same_text _ _ (
        ground (
          arith,
          find-passes _ s.receiving_tasks returned-IsReceipt.task returned-IsReceipt.found,
        )) in
      rw returned-IsReceipt.closed.tasks
        (none_left id returned-IsReceipt.task _ _ _ s.receiving_tasks named)

  -- Where the inventory ids are unique: after the goods of a task were received by its id, a second
  -- call for the id raises and changes nothing.
  pub generate_goods_received_twice :
      generate_goods_received env (some id) u ≡ (err (failure "No STARTED receiving task found"), u)
  unfolding generate_goods_received receive_started transaction ◌>>=◌
  generate_goods_received_twice = rw (has_id, found_none) refl
