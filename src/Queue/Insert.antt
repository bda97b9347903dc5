-- ===== src/Queue/Insert.antt =====
-- event_queue.py, `insert_future_event`: at most one live row for a cause.
use daemon_supply_chain.Common.{
  ℕ, String, ◌≡◌, inl, inr, Bool, false, ◌&&◌, ◌||◌, none, some, List, [], ◌∷◌, ◌++◌, arith, ◌==◌,
  Option-cases, Bool-cases, find, All,
}
use daemon_supply_chain.Queue.{
  Row, Queue, NewEvent, is_business, is_duplicate, new_row, insert_future_event,
}

-- Two rows that one cause must not have both: live, of one type, and of one correlation or of one
-- aggregate.
pub conflicts : Row → Row → Bool
conflicts a b =
    (is_business a.status && is_business b.status)
    && (a.event_type == b.event_type
        && (a.correlation_id == b.correlation_id || a.aggregate_id == b.aggregate_id))

-- No row conflicts with a later one.
abbrev pub IsUnique : List Row → Type 0
IsUnique [] = Unit
IsUnique (row ∷ rows) = All (λ later. conflicts row later ≡ false) rows × IsUnique rows

IsUnique-snoc :
    (rows : List Row) (new : Row)
    → IsUnique rows
    → All (λ row. conflicts row new ≡ false) rows
    → IsUnique (rows ++ new ∷ [])
IsUnique-snoc [] new u h = (tt, tt)
IsUnique-snoc (row ∷ rows) new u h = (All-snoc rows u.0 h.0, IsUnique-snoc rows new u.1 h.1)
  where
    All-snoc :
        (rs : List Row)
        → All (λ later. conflicts row later ≡ false) rs
        → conflicts row new ≡ false
        → All (λ later. conflicts row later ≡ false) (rs ++ new ∷ [])
    All-snoc [] a b = (b, tt)
    All-snoc (r ∷ rs) a b = (a.0, All-snoc rs a.1 b)

no_duplicate :
    (now : ℕ) (uuid : String) (e : NewEvent) (rows : List Row)
    → find (is_duplicate e) rows ≡ none
    → All (λ row. conflicts row (new_row now uuid e) ≡ false) rows
unfolding is_duplicate conflicts new_row
no_duplicate now uuid e [] h = tt
no_duplicate now uuid e (row ∷ rows) h = elim (Bool-cases (is_duplicate e row)) [
  | inl same ↦ let found : some row ≡ none = rw same at h in cc
  | inr other ↦ (ground (arith, other), no_duplicate now uuid e rows (rw other at h))
]

-- In a queue where no two live rows of one type share a correlation or an aggregate, no insertion
-- makes two.
pub insert_future_event-IsUnique :
    (now : ℕ) (uuid : String) (e : NewEvent) (q : Queue)
    → IsUnique q.rows
    → IsUnique (insert_future_event now uuid e q).1.rows
unfolding insert_future_event
insert_future_event-IsUnique now uuid e q u = elim (Option-cases (find (is_duplicate e) q.rows)) [
  | inl fresh ↦
      rw (fresh, insert_future_event)
        (IsUnique-snoc q.rows (new_row now uuid e) u (no_duplicate now uuid e q.rows fresh))
  | inr (row, found) ↦ rw (found, insert_future_event) u
]
