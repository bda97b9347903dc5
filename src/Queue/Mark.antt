-- ===== src/Queue/Mark.antt =====
-- event_queue.py, `mark_event_status`, as a write to the map from ids to rows.
use daemon_supply_chain.Common.{
  ℕ, String, ◌≡◌, refl, ap, subst, eq_iff, inl, inr, Option, none, some, List, [], ◌∷◌, ◌++◌, arith,
  ◌==◌, if◌then◌else◌, Bool-cases, Option-cases, length, get_elem?, modify, index_from,
  get_elem?-modify,
}
use daemon_supply_chain.Values.{Texts}
use daemon_supply_chain.Queue.{Row, Queue, is_final}
use daemon_supply_chain.Queue.Marks.{
  Change, has_id, unknown_row, ensure_memory_row, mark_row, mark_event_status, history_entry,
}
use daemon_supply_chain.Queue.Rows.{
  row_of, IsFirst, index_from-IsFirst, index_from-none, IsFirst-row_of, row_of-modify, row_of-snoc,
  IsFirst-snoc, get_elem?-snoc,
}

abbrev or_row : Row → Option Row → Row
or_row row none = row
or_row row (some found) = found

-- The row that is marked: the one of the id, or a new one.
abbrev pub target_row : Texts → ℕ → String → String → Change → List Row → Row
target_row t now uuid event_id c rows =
    or_row (unknown_row t now uuid event_id c) (row_of event_id rows)

module _ (t : Texts) (now : ℕ) (uuid event_id : String) (c : Change) where
  -- The rows that `mark_event_status` writes to, and the position of the write.
  record IsTarget (rows rows' : List Row) (i : ℕ) : Type 0 where
    row : Row
    first : IsFirst event_id rows' i
    at : get_elem? rows' i ≡ some row
    same : row ≡ target_row t now uuid event_id c rows
    others : (id : String) → row_of id rows' ≡ (if event_id == id then some row else row_of id rows)

  snoc-IsTarget :
      (rows : List Row)
      → row_of event_id rows ≡ none
      → IsTarget rows (rows ++ unknown_row t now uuid event_id c ∷ []) (length rows)
  unfolding unknown_row
  snoc-IsTarget rows absent = record {
    row = unknown_row t now uuid event_id c;
    first = IsFirst-snoc rows (unknown_row t now uuid event_id c) absent;
    at = get_elem?-snoc rows (unknown_row t now uuid event_id c);
    same = rw absent refl;
    others = λ id. row_of-snoc id rows (unknown_row t now uuid event_id c) absent;
  }

  found-IsTarget : (rows : List Row) (i : ℕ) → IsFirst event_id rows i → IsTarget rows rows i
  found-IsTarget rows i first =
      let (row, at, r) = IsFirst-row_of event_id rows i first in
      record {
        row = row;
        first = first;
        at = at;
        same = rw r refl;
        others = λ id. ground (arith, eq_iff event_id id);
      }

  ensure_memory_row-IsTarget :
      (rows : List Row)
      → let (rows', i) = ensure_memory_row t now uuid event_id c rows in IsTarget rows rows' i
  unfolding ensure_memory_row
  ensure_memory_row-IsTarget rows = elim (Option-cases (index_from (has_id event_id) 0 rows)) [
    | inl absent ↦
        rw (absent, ensure_memory_row) (snoc-IsTarget rows (index_from-none event_id 0 rows absent))
    | inr (i, found) ↦
        let (k, at, first) = index_from-IsFirst event_id 0 i rows found in
        rw (found, ensure_memory_row)
          (found-IsTarget rows i (subst (IsFirst event_id rows) (omega arith) first))
  ]

  mark_row-id : (row : Row) → (mark_row t c row).event_id ≡ row.event_id
  unfolding mark_row
  mark_row-id row = refl

  marked_rows :
      (rows rows' : List Row) (i : ℕ)
      → IsTarget rows rows' i
      → (id : String)
      → row_of id (modify rows' i (mark_row t c)) ≡ (
          if event_id == id
          then some (mark_row t c (target_row t now uuid event_id c rows))
          else row_of id rows)
  marked_rows rows rows' i target id =
      let written =
        row_of-modify event_id id (mark_row t c) rows' i target.row mark_row-id target.first
          target.at in
      elim (Bool-cases (event_id == id)) [
        | inl same ↦ rw (written, same) (ap (λ r. some (mark_row t c r)) target.same)
        | inr other ↦ rw (written, other) (rw (target.others id, other) refl)
      ]

  marked_at :
      (rows rows' : List Row) (i : ℕ)
      → IsTarget rows rows' i
      → get_elem? (modify rows' i (mark_row t c)) i
        ≡ some (mark_row t c (target_row t now uuid event_id c rows))
  marked_at rows rows' i target =
      rw (get_elem?-modify rows' i (mark_row t c), target.at)
        (ap (λ r. some (mark_row t c r)) target.same)

  -- A mark writes the first row of its id, made where there was none, and no other id; the history
  -- grows by that row exactly where the new status is final.
  pub mark_event_status-row_of :
      (q : Queue) (id : String)
      → let marked = mark_row t c (target_row t now uuid event_id c q.rows) in
        let q' = mark_event_status t now uuid event_id c q in
        (row_of id q'.rows ≡ (if event_id == id then some marked else row_of id q.rows))
        × (q'.history
            ≡ q.history ++ (if is_final c.status then history_entry now c marked ∷ [] else []))
  unfolding mark_event_status
  mark_event_status-row_of q id =
      let (rows', i) = ensure_memory_row t now uuid event_id c q.rows in
      let target = ensure_memory_row-IsTarget q.rows in
      (marked_rows q.rows rows' i target id, rw (marked_at q.rows rows' i target) refl)
