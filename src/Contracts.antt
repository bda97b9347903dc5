-- ===== src/Contracts.antt =====
-- simulator/core/contracts.py: which events each run window may execute, and the order of the
-- events of a worker's shift.
pub mod Shifts
use daemon_supply_chain.Common.{
  String, Bool, true, false, ◌&&◌, ◌||◌, not, Option, none, some, List, [], ◌∷◌, ◌==◌,
  if◌then◌else◌, lookup, elem, Result, ok, err, value_error, ◌>>=◌,
}
use daemon_supply_chain.Common.Text.{lower, strip}

abbrev pub valid_run_windows : List String
valid_run_windows = "morning" ∷ "afternoon" ∷ "evening" ∷ "night" ∷ []

abbrev pub lms_event_types : List String
lms_event_types =
    "PunchIn" ∷ "PunchOut" ∷ "ShiftStart" ∷ "ShiftEnd" ∷ "BreakStart" ∷ "BreakEnd" ∷ "WorkerCheckIn"
    ∷ "WorkerCheckOut" ∷ []

-- `lms_events` is the same set for every window.
pub record Contract : Type 0 where
  pub name : String
  pub domain : String
  pub allowed_events : List String
  pub root_event : String

unfoldable pub contract_by_window : List (String × Contract)
contract_by_window =
    (
      "morning",
      record {
        name = "morning";
        domain = "inbound";
        allowed_events =
            "PurchaseOrderCreated" ∷ "PurchaseOrderApproved" ∷ "SupplierShipmentCreated"
            ∷ "ASNReceived" ∷ "SupplierShipmentDelivered" ∷ "ReceivingInboundTaskCreated"
            ∷ "ReceivingTaskCreated" ∷ "ReceivingTaskStarted" ∷ "ReceivingTaskCompleted"
            ∷ "GoodsReceived" ∷ "StockIncreased" ∷ "InventoryPutaway" ∷ [];
        root_event = "PurchaseOrderCreated";
      },
    )
    ∷ (
      "afternoon",
      record {
        name = "afternoon";
        domain = "outbound";
        allowed_events =
            "OrderCreated" ∷ "OrderItemCreated" ∷ "InventoryAllocationCreated" ∷ "InventoryReserved"
            ∷ "PickingTaskCreated" ∷ "PickingTaskStarted" ∷ "PickingCompleted"
            ∷ "PackingTaskCreated" ∷ "PackingCompleted" ∷ "ShipmentReady" ∷ [];
        root_event = "OrderCreated";
      },
    )
    ∷ (
      "evening",
      record {
        name = "evening";
        domain = "transportation";
        allowed_events =
            "CarrierAssigned" ∷ "VehicleAssigned" ∷ "ShipmentPickedUp" ∷ "ShipmentDelivered" ∷ [];
        root_event = "ShipmentReady";
      },
    )
    ∷ (
      "night",
      record {
        name = "night";
        domain = "outbound_transportation";
        allowed_events =
            "OrderCreated" ∷ "OrderItemCreated" ∷ "InventoryAllocationCreated" ∷ "InventoryReserved"
            ∷ "PickingTaskCreated" ∷ "PickingTaskStarted" ∷ "PickingCompleted"
            ∷ "PackingTaskCreated" ∷ "PackingCompleted" ∷ "ShipmentReady" ∷ "CarrierAssigned"
            ∷ "VehicleAssigned" ∷ "ShipmentPickedUp" ∷ "ShipmentDelivered" ∷ [];
        root_event = "OrderCreated";
      },
    )
    ∷ []

unfoldable pub normalize_run_window : Option String → Result String
normalize_run_window none = ok "morning"
normalize_run_window (some value) =
    let normalized = lower (strip value) in
    if elem normalized valid_run_windows then ok normalized else err value_error

-- A window that no contract is found for raises too.
unfoldable pub contract_of : String → Result Contract
contract_of normalized = elim (lookup normalized contract_by_window) [
  | some contract ↦ ok contract
  | none ↦ err value_error
]

unfoldable pub get_contract_for_window : Option String → Result Contract
get_contract_for_window run_window = do
  normalized ← normalize_run_window run_window
  contract_of normalized

unfoldable pub is_event_allowed_for_window : Option String → Option String → Result Bool
is_event_allowed_for_window none run_window = ok false
is_event_allowed_for_window (some event_name) run_window =
    let normalized_event = strip event_name in
    if elem normalized_event lms_event_types then ok true else (do
      contract ← get_contract_for_window run_window
      ok (elem normalized_event contract.allowed_events))

unfoldable pub get_root_event_for_window : Option String → Result String
get_root_event_for_window run_window = do
  contract ← get_contract_for_window run_window
  ok contract.root_event

-- What an event does to a shift, by the sets that `validate_lms_sequence` tests in turn.
pub data Kind : Type 0 where
  shift_start shift_end break_start break_end other : Kind

unfoldable pub kind : String → Kind
kind event_name =
    let normalized = strip event_name in
    if elem normalized ("PunchIn" ∷ "ShiftStart" ∷ "WorkerCheckIn" ∷ [])
    then shift_start
    else if elem normalized ("PunchOut" ∷ "ShiftEnd" ∷ "WorkerCheckOut" ∷ [])
    then shift_end
    else if normalized == "BreakStart"
    then break_start
    else if normalized == "BreakEnd"
    then break_end
    else other

-- The two variables of the loop.
pub record Shift : Type 0 where
  pub active_shift : Bool
  pub active_break : Bool

abbrev pub off_duty : Shift
off_duty = record { active_shift = false; active_break = false }

-- The body of the loop; `none` is `return False`.
unfoldable pub lms_step : Kind → Shift → Option Shift
lms_step shift_start s =
    if s.active_shift then none else some (record { active_shift = true; active_break = false })
lms_step shift_end s = if not s.active_shift then none else some off_duty
lms_step break_start s =
    if not s.active_shift || s.active_break then none else some (record s { active_break = true })
lms_step break_end s =
    if not s.active_shift || not s.active_break
    then none
    else some (record s { active_break = false })
lms_step other s = some s

unfoldable pub lms_loop : Shift → List String → Bool
lms_loop s [] = not s.active_break && not s.active_shift
lms_loop s (event_name ∷ events) = elim (lms_step (kind event_name) s) [
  | none ↦ false
  | some s' ↦ lms_loop s' events
]

unfoldable pub validate_lms_sequence : List String → Bool
validate_lms_sequence events = lms_loop off_duty events
