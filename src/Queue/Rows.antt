-- ===== src/Queue/Rows.antt =====
-- The rows of the queue as a map from ids: an id stands for the first row that has it.
use daemon_supply_chain.Common.{
  ℕ, zero, suc, ◌+◌, String, ◌≡◌, refl, inl, inr, true, false, Option, none, some, List, [], ◌∷◌,
  ◌++◌, arith, eq_iff, eq_refl, ◌==◌, if◌then◌else◌, Bool-cases, length, get_elem?, modify,
  index_from,
}
use daemon_supply_chain.Queue.{Row}
use daemon_supply_chain.Queue.Marks.{has_id}

pub row_of : String → List Row → Option Row
row_of event_id [] = none
row_of event_id (row ∷ rows) = if has_id event_id row then some row else row_of event_id rows

-- The position is that of the first row with the id.
abbrev pub IsFirst : String → List Row → ℕ → Type 0
IsFirst event_id [] i = ⊥
IsFirst event_id (row ∷ rows) zero = has_id event_id row ≡ true
IsFirst event_id (row ∷ rows) (suc i) = (has_id event_id row ≡ false) × IsFirst event_id rows i

pub index_from-IsFirst :
    (event_id : String) (n i : ℕ) (rows : List Row)
    → index_from (has_id event_id) n rows ≡ some i
    → (k : ℕ) × (i ≡ n + k) × IsFirst event_id rows k
index_from-IsFirst event_id n i [] h = cc
index_from-IsFirst event_id n i (row ∷ rows) h = elim (Bool-cases (has_id event_id row)) [
  | inl here ↦ (0, ground arith, here)
  | inr there ↦
      let (k, at, first) = index_from-IsFirst event_id (suc n) i rows (rw there at h) in
      (suc k, omega arith, (there, first))
]

pub index_from-none :
    (event_id : String) (n : ℕ) (rows : List Row)
    → index_from (has_id event_id) n rows ≡ none
    → row_of event_id rows ≡ none
unfolding row_of
index_from-none event_id n [] h = refl
index_from-none event_id n (row ∷ rows) h = elim (Bool-cases (has_id event_id row)) [
  | inl here ↦ let found : some n ≡ none = rw here at h in cc
  | inr there ↦ rw there (index_from-none event_id (suc n) rows (rw there at h))
]

pub IsFirst-row_of :
    (event_id : String) (rows : List Row) (i : ℕ)
    → IsFirst event_id rows i
    → (row : Row) × (get_elem? rows i ≡ some row) × (row_of event_id rows ≡ some row)
unfolding row_of
IsFirst-row_of event_id [] i h = elim h [ ]
IsFirst-row_of event_id (row ∷ rows) zero h = (row, refl, rw h)
IsFirst-row_of event_id (row ∷ rows) (suc i) h =
    let (found, at, first) = IsFirst-row_of event_id rows i h.1 in (found, at, rw h.0 first)

-- A write to the first row of an id, which keeps the id, is seen under that id alone.
pub row_of-modify :
    (event_id id : String) (f : Row → Row) (rows : List Row) (i : ℕ) (row : Row)
    → ((r : Row) → (f r).event_id ≡ r.event_id)
    → IsFirst event_id rows i
    → get_elem? rows i ≡ some row
    → row_of id (modify rows i f) ≡ (if event_id == id then some (f row) else row_of id rows)
unfolding row_of
row_of-modify event_id id f [] i row keep h e = elim h [ ]
row_of-modify event_id id f (r ∷ rows) zero row keep h e = ground (
  arith,
  keep r,
  eq_iff r.event_id event_id,
  eq_iff r.event_id id,
  eq_iff event_id id,
  eq_iff (f r).event_id id,
)
row_of-modify event_id id f (r ∷ rows) (suc i) row keep h e = ground (
  arith,
  row_of-modify event_id id f rows i row keep h.1 e,
  eq_iff r.event_id event_id,
  eq_iff r.event_id id,
  eq_iff event_id id,
)

pub row_of-snoc :
    (id : String) (rows : List Row) (new : Row)
    → row_of new.event_id rows ≡ none
    → row_of id (rows ++ new ∷ []) ≡ (if new.event_id == id then some new else row_of id rows)
unfolding row_of
row_of-snoc id [] new h = ground arith
row_of-snoc id (r ∷ rows) new h = elim (Bool-cases (has_id new.event_id r)) [
  | inl here ↦ let found : some r ≡ none = rw here at h in cc
  | inr there ↦ ground (
    arith,
    row_of-snoc id rows new (rw there at h),
    eq_iff r.event_id new.event_id,
    eq_iff r.event_id id,
    eq_iff new.event_id id,
  )
]

-- A new id is first at the end.
pub IsFirst-snoc :
    (rows : List Row) (new : Row)
    → row_of new.event_id rows ≡ none
    → IsFirst new.event_id (rows ++ new ∷ []) (length rows)
unfolding row_of
IsFirst-snoc [] new h = eq_refl new.event_id
IsFirst-snoc (r ∷ rows) new h = elim (Bool-cases (has_id new.event_id r)) [
  | inl here ↦ let found : some r ≡ none = rw here at h in cc
  | inr there ↦ (there, IsFirst-snoc rows new (rw there at h))
]

pub get_elem?-snoc :
    (rows : List Row) (new : Row) → get_elem? (rows ++ new ∷ []) (length rows) ≡ some new
get_elem?-snoc [] new = refl
get_elem?-snoc (row ∷ rows) new = get_elem?-snoc rows new
