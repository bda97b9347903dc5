-- ===== src/Examples/Tables.antt =====
-- Inputs at which the theorems on the state machines, the contracts and the delays apply.
use daemon_supply_chain.Common.{
  ℕ, ◌+◌, ◌*◌, ◌≤◌, String, ◌≡◌, ◌≢◌, refl, true, some, List, [], ◌∷◌, arith, length, ok,
}
use daemon_supply_chain.Common.Text.{lower, strip, upper}
use daemon_supply_chain.Ids.{format_id, zfill, str_number, next_id}
use daemon_supply_chain.Ids.RoundTrip.{id_number, id_number-format_id}
use daemon_supply_chain.Ids.Fresh.{draw_all, next_id_fresh}
use daemon_supply_chain.StateMachine.{
  validate_transition, normalize_entity_type, infer_entity_type, infer_next_state,
}
use daemon_supply_chain.StateMachine.Laws.{Chain, Chain-length-le}
use daemon_supply_chain.Contracts.{
  Contract, valid_run_windows, get_contract_for_window, Kind, kind, shift_start, shift_end,
  break_start, break_end, validate_lms_sequence,
}
use daemon_supply_chain.Contracts.Shifts.{count, validate_lms_sequence-balance}
use daemon_supply_chain.Timing.{get_future_event_time, microseconds_per_minute}
use daemon_supply_chain.Timing.Bounds.{IsRandint, get_future_event_time-later}
use daemon_supply_chain.Examples.Setup.{noon}

approve : validate_transition (some "created") (some "approved") (some "purchase_orders") ≡ true
unfolding validate_transition daemon_supply_chain.StateMachine.allows_entity normalize_entity_type
    daemon_supply_chain.StateMachine.aliases lower strip
    daemon_supply_chain.StateMachine.state_machine daemon_supply_chain.StateMachine.allows upper
approve = refl

created_approved : Chain "purchase_orders" "created" ("approved" ∷ [])
created_approved = Chain.step approve (Chain.rest "approved")

Chain-length-le_example : length {A = String} ("approved" ∷ []) ≤ 6
Chain-length-le_example =
    Chain-length-le "purchase_orders" "created" ("approved" ∷ []) created_approved

abbrev day : List String
day = "ShiftStart" ∷ "BreakStart" ∷ "BreakEnd" ∷ "ShiftEnd" ∷ []

validate_lms_sequence-balance_example :
    (count shift_start day ≡ count shift_end day) × (count break_end day ≤ count break_start day)
unfolding validate_lms_sequence daemon_supply_chain.Contracts.lms_loop
    daemon_supply_chain.Contracts.lms_step kind strip
validate_lms_sequence-balance_example = validate_lms_sequence-balance day refl

abbrev least : ℕ → ℕ → ℕ
least lo hi = lo

least-IsRandint : IsRandint least
least-IsRandint lo hi h = (omega arith, h)

get_future_event_time-later_example :
    (t : ℕ) × (get_future_event_time least "ASNReceived" noon ≡ ok t)
    × (noon + microseconds_per_minute ≤ t)
    × (t ≤ noon + 1440 * microseconds_per_minute)
get_future_event_time-later_example =
    get_future_event_time-later least least-IsRandint "ASNReceived" noon

padded : format_id "PO" 12 ≡ "PO-000000012"
unfolding format_id zfill str_number
padded = refl

id_number-format_id_example : id_number "PO" (format_id "PO" 12) ≡ 12
id_number-format_id_example = id_number-format_id "PO" 12

abbrev one_call : List (String × String)
one_call = ("order_id_seq", "ORD") ∷ []

next_id_fresh_example :
    (next_id "po_id_seq" "PO" (λ name. 0)).0
    ≢ (next_id "po_id_seq" "PO" (draw_all one_call (next_id "po_id_seq" "PO" (λ name. 0)).1)).0
next_id_fresh_example = next_id_fresh "po_id_seq" "PO" one_call (λ name. 0)
