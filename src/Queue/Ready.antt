-- ===== src/Queue/Ready.antt =====
-- event_queue.py, `list_ready_events`: in which order the events are listed that are due.
use daemon_supply_chain.Common.{
  ℕ, suc, ◌<◌, ◌≡◌, refl, inl, inr, String, Bool, true, false, ◌&&◌, ◌||◌, not, ◌==◌, eq_iff,
  Option, none, some, List, [], ◌∷◌, arith, ltb, nat_eq, if◌then◌else◌, Bool-cases, filter, All,
  All-filter, lookup,
}
use daemon_supply_chain.Common.Sorting.{All-mono}
use daemon_supply_chain.Common.Text.{upper}
use daemon_supply_chain.Values.{text, get, ◌or◌, str, Texts}
use daemon_supply_chain.Queue.{
  Row, Ref, key, leb_key, priority_order, priority_rank, number_from, insert_ref, sort_refs,
  ready_refs,
}

-- The name of the priority of a row; an empty one counts as MEDIUM.
abbrev pub level : Texts → Row → String
level t row = upper (str t ((text row.priority or get "priority" row.payload) or text "MEDIUM"))

-- HIGH comes before all else, and LOW behind all else.
pub precedes : Texts → Row → Row → Bool
precedes t x y =
    (level t x == "HIGH" && not (level t y == "HIGH"))
    || (not (level t x == "LOW") && level t y == "LOW")

-- The order of the dispatch: by the priority, then by time, then by the position in the queue.
pub before : Texts → Ref → Ref → Bool
before t x y =
    precedes t x.1 y.1
    || (not (precedes t y.1 x.1)
        && (ltb x.1.scheduled_time y.1.scheduled_time
            || (nat_eq x.1.scheduled_time y.1.scheduled_time && ltb x.0 y.0)))

abbrev pub IsOrdered : Texts → List Ref → Type 0
IsOrdered t [] = Unit
IsOrdered t (x ∷ xs) = All (λ y. before t x y ≡ true) xs × IsOrdered t xs

-- The same by the key of the sort.
key_before : Texts → Ref → Ref → Bool
key_before t x y =
    leb_key (key t x.1) (key t y.1)
    && (if leb_key (key t y.1) (key t x.1) then ltb x.0 y.0 else true)

abbrev IsKeyOrdered : Texts → List Ref → Type 0
IsKeyOrdered t [] = Unit
IsKeyOrdered t (x ∷ xs) = All (λ y. key_before t x y ≡ true) xs × IsKeyOrdered t xs

rank_of_level :
    (t : Texts) (row : Row)
    → (key t row).rank
      ≡ (if level t row == "HIGH" then 0 else if level t row == "LOW" then 2 else 1)
unfolding key priority_rank
rank_of_level t row = by_name (level t row)
  where
    by_name :
        (name : String)
        → ◌≡◌ {A = ℕ}
            (elim (lookup name priority_order) [ some rank ↦ rank | none ↦ 1 ])
            (if name == "HIGH" then 0 else if name == "LOW" then 2 else 1)
    by_name name = elim (Bool-cases (name == "MEDIUM")) [
      | inl medium ↦ rw ((eq_iff name "MEDIUM").0 medium) refl
      | inr other ↦ ground arith
    ]

not_both : (name : String) → (name == "HIGH") ≡ true → (name == "LOW") ≡ false
not_both name high = rw ((eq_iff name "HIGH").0 high) refl

key_before-before : (t : Texts) (x y : Ref) → key_before t x y ≡ true → before t x y ≡ true
unfolding key_before before precedes key
key_before-before t x y h = ground (
  arith,
  rank_of_level t x.1,
  rank_of_level t y.1,
  not_both (level t x.1),
  not_both (level t y.1),
)

key_before_trans :
    (t : Texts) (x y z : Ref)
    → key_before t x y ≡ true
    → key_before t y z ≡ true
    → key_before t x z ≡ true
unfolding key_before
key_before_trans t x y z h k = ground arith

module _ (t : Texts) (x : Ref) where
  insert_ref-All : (P : Ref → Type 0) (ys : List Ref) → P x → All P ys → All P (insert_ref t x ys)
  unfolding insert_ref
  insert_ref-All P [] px h = (px, tt)
  insert_ref-All P (y ∷ ys) px h = elim (Bool-cases (leb_key (key t x.1) (key t y.1))) [
    | inl front ↦ rw front (px, h)
    | inr behind ↦ rw behind (h.0, insert_ref-All P ys px h.1)
  ]

  All-key_before_trans :
      (y : Ref) (ys : List Ref)
      → key_before t x y ≡ true
      → All (λ z. key_before t y z ≡ true) ys
      → All (λ z. key_before t x z ≡ true) ys
  All-key_before_trans y [] h k = tt
  All-key_before_trans y (z ∷ zs) h k =
      (key_before_trans t x y z h k.0, All-key_before_trans y zs h k.1)

  -- An element that stood in front of the others is put in order.
  insert_ref-IsKeyOrdered :
      (ys : List Ref)
      → All (λ y. x.0 < y.0) ys
      → IsKeyOrdered t ys
      → IsKeyOrdered t (insert_ref t x ys)
  unfolding insert_ref key_before
  insert_ref-IsKeyOrdered [] h o = (tt, tt)
  insert_ref-IsKeyOrdered (y ∷ ys) h o = elim (Bool-cases (leb_key (key t x.1) (key t y.1))) [
    | inl front ↦
        let first : key_before t x y ≡ true = ground (arith, h.0) in
        rw front ((first, All-key_before_trans y ys first o.0), o)
    | inr behind ↦
        rw behind (insert_ref-All _ ys (ground arith) o.0, insert_ref-IsKeyOrdered ys h.1 o.1)
  ]

-- Positions that grow along the list, from a bound on.
abbrev IsAscending : List Ref → Type 0
IsAscending [] = Unit
IsAscending (x ∷ xs) = All (λ y. x.0 < y.0) xs × IsAscending xs

number_from-All :
    (n m : ℕ) (rows : List Row) → m < n → All (λ (x : Ref). m < x.0) (number_from n rows)
number_from-All n m [] h = tt
number_from-All n m (row ∷ rows) h = (h, number_from-All (suc n) m rows (omega arith))

number_from-IsAscending : (n : ℕ) (rows : List Row) → IsAscending (number_from n rows)
number_from-IsAscending n [] = tt
number_from-IsAscending n (row ∷ rows) =
    (number_from-All (suc n) n rows (omega arith), number_from-IsAscending (suc n) rows)

filter-IsAscending : (p : Ref → Bool) (xs : List Ref) → IsAscending xs → IsAscending (filter p xs)
filter-IsAscending p [] h = tt
filter-IsAscending p (x ∷ xs) h = elim (Bool-cases (p x)) [
  | inl kept ↦ rw kept (All-filter (λ y. x.0 < y.0) p xs h.0, filter-IsAscending p xs h.1)
  | inr dropped ↦ rw dropped (filter-IsAscending p xs h.1)
]

module _ (t : Texts) where
  sort_refs-All : (P : Ref → Type 0) (xs : List Ref) → All P xs → All P (sort_refs t xs)
  unfolding sort_refs
  sort_refs-All P [] h = tt
  sort_refs-All P (x ∷ xs) h = insert_ref-All t x P (sort_refs t xs) h.0 (sort_refs-All P xs h.1)

  sort_refs-IsKeyOrdered : (xs : List Ref) → IsAscending xs → IsKeyOrdered t (sort_refs t xs)
  unfolding sort_refs
  sort_refs-IsKeyOrdered [] h = tt
  sort_refs-IsKeyOrdered (x ∷ xs) h =
      insert_ref-IsKeyOrdered t x (sort_refs t xs) (sort_refs-All (λ y. x.0 < y.0) xs h.0)
        (sort_refs-IsKeyOrdered xs h.1)

  IsKeyOrdered-IsOrdered : (xs : List Ref) → IsKeyOrdered t xs → IsOrdered t xs
  IsKeyOrdered-IsOrdered [] h = tt
  IsKeyOrdered-IsOrdered (x ∷ xs) h =
      (All-mono _ _ (λ y. key_before-before t x y) xs h.0, IsKeyOrdered-IsOrdered xs h.1)

  -- Events are listed strictly one before another: those of the priority HIGH before all others and
  -- those of LOW behind all others, in any spelling of these names and with the payload's priority
  -- where the row's is empty; within one priority, and among all other names, by the scheduled
  -- time; and those that tie in the order of their insertion.
  pub ready_refs-IsOrdered :
      (target : ℕ) (from_time : Option ℕ) (rows : List Row)
      → IsOrdered t (ready_refs t target from_time rows)
  unfolding ready_refs
  ready_refs-IsOrdered target from_time rows = IsKeyOrdered-IsOrdered _ (
      sort_refs-IsKeyOrdered _
        (filter-IsAscending _ (number_from 0 rows) (number_from-IsAscending 0 rows)))
