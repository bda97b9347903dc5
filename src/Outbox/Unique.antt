-- ===== src/Outbox/Unique.antt =====
-- The table event_outbox: its unique indexes are never violated by an insertion.
use daemon_supply_chain.Common.{
  ℕ, String, ◌≡◌, refl, inl, inr, Bool, true, false, none, some, [], ◌∷◌, ◌++◌, eq_refl, leb,
  if◌then◌else◌, Option-cases, Bool-cases, any, filter, ok,
}
use daemon_supply_chain.Queue.{is_business}
use daemon_supply_chain.Values.{Fields}
use daemon_supply_chain.Outbox.{
  OutboxRow, Table, same_cause, has_event_id, insert_row, earliest, publish_row, publish_event,
  published_row,
}

earliest-none :
    (p : OutboxRow → Bool) (table : Table) → earliest (filter p table) ≡ none → any p table ≡ false
unfolding earliest
earliest-none p [] h = refl
earliest-none p (r ∷ rows) h = elim (Bool-cases (p r)) [
  | inr fails ↦ rw fails (earliest-none p rows (rw fails at h))
  | inl passes ↦ elim (Option-cases (earliest (filter p rows))) [
    | inl alone ↦ let x : some r ≡ none = rw (passes, alone, earliest) at h in cc
    | inr (other, found) ↦
        let x : some (if leb r.created_at other.created_at then r else other) ≡ none =
          rw (passes, found, earliest) at h in
        cc
  ]
]

filter_snoc :
    (p : OutboxRow → Bool) (table : Table) (row : OutboxRow)
    → any p table ≡ false
    → p row ≡ true
    → filter p (table ++ row ∷ []) ≡ row ∷ []
filter_snoc p [] row h k = rw k refl
filter_snoc p (r ∷ rows) row h k = elim (Bool-cases (p r)) [
  | inl passes ↦ let absurd : true ≡ false = rw passes at h in cc
  | inr fails ↦ rw fails (filter_snoc p rows row (rw fails at h) k)
]

-- The table's live row for the cause that a query finds first has the id.
pub IsPublished : OutboxRow → String → Table → Type 0
IsPublished row id table =
    (found : OutboxRow) × (earliest (filter (same_cause row) table) ≡ some found)
    × (found.event_id ≡ id)

same_cause_refl : (row : OutboxRow) → is_business row.status ≡ true → same_cause row row ≡ true
unfolding same_cause
same_cause_refl row live = simp (eq_refl, live)

publish_row-IsPublished :
    (row : OutboxRow) (table : Table)
    → is_business row.status ≡ true
    → any (has_event_id row.event_id) table ≡ false
    → let (outcome, table') = publish_row row table in
      (id : String) × (outcome ≡ ok id) × IsPublished row id table'
unfolding publish_row insert_row IsPublished earliest
publish_row-IsPublished row table live fresh = elim (Bool-cases (any (same_cause row) table)) [
  | inr new ↦ (
    row.event_id,
    rw (new, fresh, publish_row, insert_row) refl,
    rw (new, fresh, publish_row, insert_row)
        (
          row,
          rw (filter_snoc (same_cause row) table row new (same_cause_refl row live), earliest) refl,
          refl,
        ),
  )
  | inl there ↦ elim (Option-cases (earliest (filter (same_cause row) table))) [
    | inl none_found ↦
        let absurd : true ≡ false = rw there at (earliest-none (same_cause row) table none_found) in
        cc
    | inr (found, e) ↦
        (found.event_id, rw (there, e, publish_row) refl, rw (there, publish_row) (found, e, refl))
  ]
]

-- With an id that the table does not have, publish_event returns the id of the earliest live row
-- for the cause, the new one or one that was there.
pub publish_event-IsPublished :
    (now : ℕ) (uuid event_type aggregate_type aggregate_id correlation_id : String)
    (payload : Fields) (table : Table)
    → any (has_event_id uuid) table ≡ false
    → let (outcome, table') =
        publish_event now uuid event_type aggregate_type aggregate_id correlation_id payload
          table in
      let row =
        published_row now uuid event_type aggregate_type aggregate_id correlation_id payload in
      (id : String) × (outcome ≡ ok id) × IsPublished row id table'
unfolding publish_event published_row
publish_event-IsPublished now uuid event_type aggregate_type aggregate_id correlation_id payload
      table fresh =
    publish_row-IsPublished
      (published_row now uuid event_type aggregate_type aggregate_id correlation_id payload) table
      refl fresh
