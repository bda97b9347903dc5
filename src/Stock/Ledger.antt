-- ===== src/Stock/Ledger.antt =====
-- The stock as a ledger: what the transactions say of each row, and the rows that agree with them.
use daemon_supply_chain.Common.{
  ℕ, ◌+◌, ◌-◌, ◌≤◌, String, ◌≡◌, refl, ap, ◌∙◌, sym, inl, inr, arith, ◌==◌, nat_eq, if◌then◌else◌,
  Bool, true, false, Bool-cases, some, List, [], ◌∷◌, ◌++◌, map, find, any, All, All-append,
}
use daemon_supply_chain.Common.Keyed.{
  Key, Keyed, Keyed-KeyedIn, at_key, find-has_key, found-All, Keyed-map, Keyed-snoc, find-any,
  All-map,
}
use daemon_supply_chain.Stock.{Inventory, Transaction}
use daemon_supply_chain.Stock.Queries.{has_inventory_id}

-- The quantities of one row.
pub record Entry : Type 0 where
  pub inventory_id : ℕ
  pub on_hand : ℕ
  pub reserved : ℕ
  pub damaged : ℕ

abbrev pub entry : Inventory → Entry
entry row = record {
  inventory_id = row.inventory_id;
  on_hand = row.on_hand_quantity;
  reserved = row.reserved_quantity;
  damaged = row.damaged_quantity;
}

-- What a transaction does to the quantities of its row. An increase only makes the row available, and
-- a putaway only gives it a place.
unfoldable pub move : String → ℕ → Entry → Entry
move kind quantity e =
    if kind == "GOODS_RECEIVED"
    then record e { on_hand = e.on_hand + quantity }
    else if kind == "STOCK_RESERVED"
    then record e { reserved = e.reserved + quantity }
    else if kind == "STOCK_PICKED"
    then record e { on_hand = e.on_hand - quantity; reserved = e.reserved - quantity }
    else e

abbrev pub has_entry : ℕ → Entry → Bool
has_entry id e = nat_eq e.inventory_id id

-- The entry of a row before its first transaction.
abbrev pub no_stock : ℕ → Entry
no_stock id = record { inventory_id = id; on_hand = 0; reserved = 0; damaged = 0 }

unfoldable pub post : Transaction → Entry → Entry
post t e = if has_entry t.inventory_id e then move t.transaction_type t.quantity e else e

-- A transaction of an id with no entry opens one.
unfoldable pub post_all : Transaction → List Entry → List Entry
post_all t entries =
    if any (has_entry t.inventory_id) entries
    then map (post t) entries
    else entries ++ move t.transaction_type t.quantity (no_stock t.inventory_id) ∷ []

-- The transactions, one after the other.
unfoldable pub replay : List Transaction → List Entry → List Entry
replay [] entries = entries
replay (t ∷ ts) entries = replay ts (post_all t entries)

pub nat_eq_sound : (a b : ℕ) → nat_eq a b ≡ true → a ≡ b
nat_eq_sound a b h = ground arith

pub nat_eq_self : (a : ℕ) → nat_eq a a ≡ true
nat_eq_self a = ground arith

abbrev pub by_id : Key Inventory ℕ
by_id = record {
  key = λ row. row.inventory_id;
  same = nat_eq;
  same_eq = nat_eq_sound;
  same_self = nat_eq_self;
}

-- What is reserved and what is damaged is on hand.
abbrev pub IsCovered : Inventory → Type 0
IsCovered row = row.reserved_quantity + row.damaged_quantity ≤ row.on_hand_quantity

-- The rows and the transactions agree: from the opening entries the transactions lead to the rows,
-- and no two rows have one id.
pub record IsSound (opening : List Entry) (rows : List Inventory) (ts : List Transaction)
    : Type 0 where
  pub keyed : Keyed by_id rows
  pub covered : All IsCovered rows
  pub explained : map entry rows ≡ replay ts opening

replay-snoc :
    (ts : List Transaction) (t : Transaction) (entries : List Entry)
    → replay (ts ++ t ∷ []) entries ≡ post_all t (replay ts entries)
unfolding replay
replay-snoc [] t entries = refl
replay-snoc (t' ∷ ts) t entries = replay-snoc ts t (post_all t' entries)

any-entry :
    (id : ℕ) (rows : List Inventory)
    → any (has_entry id) (map entry rows) ≡ any (has_inventory_id id) rows
any-entry id [] = refl
any-entry id (row ∷ rows) = elim (Bool-cases (has_inventory_id id row)) [
  | inl same ↦ rw same refl
  | inr miss ↦ rw miss (any-entry id rows)
]

-- The change of the rows with an id.
abbrev pub at_id : ℕ → (Inventory → Inventory) → Inventory → Inventory
at_id id f = at_key by_id id f

map-All :
    (g : Inventory → Inventory) (t : Transaction) (rows : List Inventory)
    → All (λ row. entry (g row) ≡ post t (entry row)) rows
    → map entry (map g rows) ≡ map (post t) (map entry rows)
map-All g t [] h = refl
map-All g t (row ∷ rows) h = rw (h.0, map-All g t rows h.1) refl

-- One UPDATE of a row that was found, and the transaction for it.
module _ (opening : List Entry) (rows : List Inventory) (ts : List Transaction)
    (sound : IsSound opening rows ts) (found : Inventory) (f : Inventory → Inventory)
    (t : Transaction) (is_found : find (has_inventory_id t.inventory_id) rows ≡ some found)
    (same_id : (row : Inventory) → (f row).inventory_id ≡ row.inventory_id)
    (still : IsCovered found → IsCovered (f found))
    (moved : entry (f found) ≡ move t.transaction_type t.quantity (entry found)) where
  abbrev g : Inventory → Inventory
  g = at_id t.inventory_id f

  posted : entry (g found) ≡ post t (entry found)
  unfolding post
  posted = rw (find-has_key by_id t.inventory_id rows found is_found) moved

  missed :
      (row : Inventory)
      → has_inventory_id t.inventory_id row ≡ false
      → entry (g row) ≡ post t (entry row)
  unfolding post
  missed row miss = rw miss refl

  post_all_found : map (post t) (map entry rows) ≡ post_all t (map entry rows)
  unfolding post_all
  post_all_found =
      rw (any-entry t.inventory_id rows, find-any by_id t.inventory_id rows found is_found) refl

  pub post-IsSound : IsSound opening (map g rows) (ts ++ t ∷ [])
  post-IsSound = record {
    keyed = Keyed-map by_id t.inventory_id f same_id rows sound.keyed;
    covered =
        All-map IsCovered IsCovered g rows
          (found-All by_id (λ row. IsCovered row → IsCovered (g row)) t.inventory_id rows found
            is_found rows (Keyed-KeyedIn by_id rows sound.keyed) (λ row miss. rw miss λ h. h)
            (rw (find-has_key by_id t.inventory_id rows found is_found) still))
          sound.covered;
    explained =
        map-All g t rows (
          found-All by_id (λ row. entry (g row) ≡ post t (entry row)) t.inventory_id rows found
            is_found rows (Keyed-KeyedIn by_id rows sound.keyed) missed posted)
        ∙ post_all_found
        ∙ ap (post_all t) sound.explained
        ∙ sym (replay-snoc ts t opening);
  }

map-snoc :
    (rows : List Inventory) (new : Inventory)
    → map entry (rows ++ new ∷ []) ≡ map entry rows ++ entry new ∷ []
map-snoc [] new = refl
map-snoc (row ∷ rows) new = ap (λ es. entry row ∷ es) (map-snoc rows new)

-- One INSERT of a row with an id of its own, and the transaction for it.
module _ (opening : List Entry) (rows : List Inventory) (ts : List Transaction)
    (sound : IsSound opening rows ts) (new : Inventory) (t : Transaction)
    (same_id : t.inventory_id ≡ new.inventory_id)
    (is_new : any (has_inventory_id new.inventory_id) rows ≡ false) (is_covered : IsCovered new)
    (opened : entry new ≡ move t.transaction_type t.quantity (no_stock t.inventory_id)) where
  post_all_new : map entry rows ++ entry new ∷ [] ≡ post_all t (map entry rows)
  unfolding post_all
  post_all_new =
      rw (any-entry t.inventory_id rows, same_id, is_new)
        (ap (λ e. map entry rows ++ e ∷ []) (rw same_id at opened))

  pub open-IsSound : IsSound opening (rows ++ new ∷ []) (ts ++ t ∷ [])
  open-IsSound = record {
    keyed = Keyed-snoc by_id new rows is_new sound.keyed;
    covered = All-append IsCovered rows (new ∷ []) sound.covered (is_covered, tt);
    explained =
        map-snoc rows new
        ∙ post_all_new
        ∙ ap (post_all t) sound.explained
        ∙ sym (replay-snoc ts t opening);
  }
