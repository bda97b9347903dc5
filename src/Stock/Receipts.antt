-- ===== src/Stock/Receipts.antt =====
-- goods_received.py: what a receipt writes, and what it adds to the stock.
use daemon_supply_chain.Common.{
  ℕ, suc, ◌+◌, String, ◌≡◌, refl, sym, ap, subst, ◌∙◌, inl, inr, arith, Bool-cases, none, some,
  Option-cases, List, [], ◌∷◌, ◌++◌, map, find, any, append_assoc, append_nil,
}
use daemon_supply_chain.Common.Keyed.{
  Keyed, Keyed-KeyedIn, Keyed-map, Keyed-snoc, at_key, map-at_key_miss, find-All,
}
use daemon_supply_chain.Common.Stateful.{each, Holds, Does, Does-bind, ◌>>=◌, ◌>>◌}
use daemon_supply_chain.Stock.{Inventory, ReceivingTask, ShipmentItem, Transaction, Db}
use daemon_supply_chain.Stock.Queries.{has_inventory_id, insert_inventory}
use daemon_supply_chain.Stock.Ledger.{by_id}
use daemon_supply_chain.Stock.GoodsReceived.{
  Received, shipped, put_in, received_row, received_transaction, stock_of, stock_item, receive_item,
}

-- All that is on hand.
abbrev pub on_hand : List Inventory → ℕ
on_hand [] = 0
on_hand (row ∷ rows) = row.on_hand_quantity + on_hand rows

on_hand-snoc :
    (rows : List Inventory) (new : Inventory)
    → on_hand (rows ++ new ∷ []) ≡ on_hand rows + new.on_hand_quantity
on_hand-snoc [] new = omega arith
on_hand-snoc (row ∷ rows) new = omega (arith, on_hand-snoc rows new)

on_hand-put_in :
    (received_at quantity id : ℕ) (rows : List Inventory) (row : Inventory)
    → Keyed by_id rows
    → find (has_inventory_id id) rows ≡ some row
    → on_hand (map (at_key by_id id (put_in received_at quantity)) rows) ≡ on_hand rows + quantity
on_hand-put_in received_at quantity id [] row h found = cc
on_hand-put_in received_at quantity id (r ∷ rows) row h found =
    elim (Bool-cases (has_inventory_id id r)) [
      | inl same ↦
          let e : r.inventory_id ≡ id = ground arith in
          rw (same, map-at_key_miss by_id id (put_in received_at quantity) rows (rw e at h.0))
            (omega arith)
      | inr other ↦
          rw other
            (omega (arith, on_hand-put_in received_at quantity id rows row h.1 (rw other at found)))
    ]

-- The transactions of the items, with the ids of the lines.
abbrev pub booked : ReceivingTask → List ShipmentItem → List Received → List Transaction
booked t (i ∷ is) (l ∷ ls) = received_transaction t i l.inventory_id ∷ booked t is ls
booked t [] ls = []
booked t (i ∷ is) [] = []

-- The products and the quantities.
abbrev pub of_items : List ShipmentItem → List (String × ℕ)
of_items = map (λ i. (i.product_id, i.shipped_quantity))

abbrev pub of_lines : List Received → List (String × ℕ)
of_lines = map (λ l. (l.product_id, l.quantity))

-- Items that are received: a line and a transaction for each, in their order, and the stock grows by
-- what was shipped.
pub record Receives (t : ReceivingTask) (is : List ShipmentItem) (s : Db) (ls : List Received)
    (u : Db) : Type 0 where
  pub lines : of_lines ls ≡ of_items is
  pub journal : u.transactions ≡ s.transactions ++ booked t is ls
  pub stock : on_hand u.inventory ≡ on_hand s.inventory + shipped is
  pub keyed : Keyed by_id u.inventory
  pub tasks : u.receiving_tasks ≡ s.receiving_tasks

abbrev line : ShipmentItem → ℕ → Received
line i id = record { inventory_id = id; product_id = i.product_id; quantity = i.shipped_quantity }

module _ (t : ReceivingTask) (received_at : ℕ) where
  -- One item, with the id of its row.
  record Round (i : ShipmentItem) (s : Db) (ls : List Received) (u : Db) : Type 0 where
    id : ℕ
    one_line : ls ≡ line i id ∷ []
    one_transaction : u.transactions ≡ s.transactions ++ received_transaction t i id ∷ []
    stock : on_hand u.inventory ≡ on_hand s.inventory + i.shipped_quantity
    keyed : Keyed by_id u.inventory
    tasks : u.receiving_tasks ≡ s.receiving_tasks

  abbrev IsRound : ShipmentItem → Db → List Received → Db → Type 0
  IsRound i s ls u = Keyed by_id s.inventory → Round i s ls u

  raised-IsRound :
      (i : ShipmentItem) (s : Db) (row : Inventory)
      → stock_of i.product_id t.warehouse_id s ≡ some row
      → Holds (IsRound i) s (receive_item t received_at i s)
  unfolding receive_item stock_item ◌>>=◌ ◌>>◌
  raised-IsRound i s row found = rw found λ h. record {
    id = row.inventory_id;
    one_line = refl;
    one_transaction = refl;
    stock = on_hand-put_in received_at i.shipped_quantity row.inventory_id s.inventory row h (
        find-All (λ r. find (has_inventory_id r.inventory_id) s.inventory ≡ some r) _ s.inventory
          row found (Keyed-KeyedIn by_id s.inventory h));
    keyed =
        Keyed-map by_id row.inventory_id (put_in received_at i.shipped_quantity) (λ r. refl)
          s.inventory h;
    tasks = refl;
  }

  opened-IsRound :
      (i : ShipmentItem) (s : Db)
      → stock_of i.product_id t.warehouse_id s ≡ none
      → Holds (IsRound i) s (receive_item t received_at i s)
  unfolding receive_item stock_item insert_inventory received_row ◌>>=◌ ◌>>◌
  opened-IsRound i s missing =
      elim (Bool-cases (any (has_inventory_id (suc s.inventory_sequence)) s.inventory)) [
        | inl taken ↦ rw (missing, taken) tt
        | inr free ↦
            rw (missing, free)
              λ h. record {
                id = suc s.inventory_sequence;
                one_line = refl;
                one_transaction = refl;
                stock = on_hand-snoc s.inventory _;
                keyed =
                    Keyed-snoc by_id (received_row t received_at i (suc s.inventory_sequence))
                      s.inventory free h;
                tasks = refl;
              }
      ]

  receive_item-IsRound : (i : ShipmentItem) → Does (IsRound i) (receive_item t received_at i)
  receive_item-IsRound i = record {
    at = λ s. elim (Option-cases (stock_of i.product_id t.warehouse_id s)) [
      | inl missing ↦ opened-IsRound i s missing
      | inr (row, found) ↦ raised-IsRound i s row found
    ];
  }

  joined :
      (i : ShipmentItem) (is : List ShipmentItem) (s u v : Db) (xs ys : List Received)
      → Round i s xs u
      → Receives t is u ys v
      → Receives t (i ∷ is) s (xs ++ ys) v
  joined i is s u v xs ys h k = rw h.one_line record {
    lines = ap (λ l. (i.product_id, i.shipped_quantity) ∷ l) k.lines;
    journal =
        k.journal
        ∙ ap (λ l. l ++ booked t is ys) h.one_transaction
        ∙ append_assoc s.transactions (received_transaction t i h.id ∷ []) (booked t is ys);
    stock = omega (arith, h.stock, k.stock);
    keyed = k.keyed;
    tasks = k.tasks ∙ h.tasks;
  }

  abbrev pub IsRun : List ShipmentItem → Db → List Received → Db → Type 0
  IsRun is s ls u = Keyed by_id s.inventory → Receives t is s ls u

  -- Where the loop ends, all items are received.
  pub each-Receives :
      (is : List ShipmentItem) → Does (IsRun is) (each (receive_item t received_at) is)
  unfolding each
  each-Receives [] = record {
    at = λ s h. record {
      lines = refl;
      journal = sym (append_nil s.transactions);
      stock = omega arith;
      keyed = h;
      tasks = refl;
    };
  }
  each-Receives (i ∷ is) =
      Does-bind (IsRound i) (λ xs u zs v. (ys : List Received) × (zs ≡ xs ++ ys) × IsRun is u ys v)
        _ _ _ (receive_item-IsRound i)
        (λ xs.
          Does-bind (IsRun is) (λ ys u zs v. (u ≡ v) × (zs ≡ xs ++ ys)) _ _ _ (each-Receives is)
            (λ ys. record { at = λ s. (refl, refl) })
            λ s ys u zs v h e. (ys, e.1, subst (λ x. IsRun is s ys x) e.0 h))
        λ s xs u zs v h k round.
          subst (λ l. Receives t (i ∷ is) s l v) (sym k.1)
            (joined i is s u v xs k.0 (h round) (k.2 (h round).keyed))
