-- ===== src/Executor/Accepted.antt =====
-- event_executor.py: the step of a default event against the state machine.
use daemon_supply_chain.Common.{
  ℕ, String, ◌≡◌, refl, inl, inr, Bool, true, false, ◌&&◌, not, none, some, arith, ◌==◌,
  if◌then◌else◌, Bool-cases, all, lookup-all, ok,
}
use daemon_supply_chain.StateMachine.{
  validate_transition, allows_entity, normalize_entity_type, aliases, state_machine, allows,
}
use daemon_supply_chain.Common.Text.{lower, strip, upper}
use daemon_supply_chain.Values.{Value, null, bool, text, Fields, end, get, truthy, ◌or◌, Texts, str}
use daemon_supply_chain.Values.Laws.{get-put}
use daemon_supply_chain.Queue.{Row}
use daemon_supply_chain.Executor.State.{Context}
use daemon_supply_chain.Executor.Prepare.{
  step_allowed, build_handler_context, validate_state_transition,
}
use daemon_supply_chain.Executor.Sequence.{Next, next_event_sequence, domain_next_event_sequence}
use daemon_supply_chain.Executor.Resolve.{next_config, next_payload}
use daemon_supply_chain.Executor.Follow.{next_config-all}

-- The step of an entry is one of its entity's machine, unless a domain signal goes with it.
is_legal : String → Next → Bool
is_legal event n =
    validate_transition (some n.current_state) (some n.next_state) (some n.entity_type)

is_filled : String → Next → Bool
is_filled event n =
    not (n.current_state == "")
    && not (n.next_state == "")
    && not (n.entity_type == "")
    && not (n.event_type == "PurchaseOrderCreated")

plain_legal : all (λ e. is_legal e.0 e.1) next_event_sequence ≡ true
unfolding is_legal next_event_sequence validate_transition allows_entity normalize_entity_type
    aliases lower strip state_machine allows upper
plain_legal = refl

plain_filled : all (λ e. is_filled e.0 e.1) next_event_sequence ≡ true
unfolding is_filled next_event_sequence
plain_filled = refl

domain_filled : all (λ e. is_filled e.0 e.1) domain_next_event_sequence ≡ true
unfolding is_filled domain_next_event_sequence
domain_filled = refl

get-if :
    (b : Bool) (k : String) (d d' : Fields)
    → get k (if b then d else d') ≡ (if b then get k d else get k d')
get-if true k d d' = refl
get-if false k d d' = refl

if_same : (b : Bool) (v : Value) → (if b then v else v) ≡ v
if_same true v = refl
if_same false v = refl

module _ (n : Next) (aggregate_id correlation_id : String) (scheduled_time : ℕ)
    (payload : Fields) where
  abbrev built : Fields
  built = next_payload n aggregate_id correlation_id scheduled_time payload

  -- What the next event's payload says of its step.
  record IsStep : Type 0 where
    current : get "current_state" built ≡ text n.current_state
    next : get "next_state" built ≡ text n.next_state
    entity : get "entity_type" built ≡ text n.entity_type
    signal :
        get "domain_signal" built
        ≡ (if truthy (get "domain_signal" payload) then bool true else get "domain_signal" end)

  built-IsStep : IsStep
  unfolding next_payload
  built-IsStep = record {
    current = simp (get-if, get-put, if_same);
    next = simp (get-if, get-put, if_same);
    entity = simp (get-if, get-put, if_same);
    signal = simp (get-if, get-put, if_same);
  }

plain_entry :
    (event_type : String) (payload : Fields) (n : Next)
    → truthy (get "domain_signal" payload) ≡ false
    → next_config event_type payload ≡ some n
    → is_legal event_type n ≡ true
unfolding next_config
plain_entry event_type payload n unsigned h =
    lookup-all is_legal event_type next_event_sequence n plain_legal
      (rw (unsigned, next_config) at h)

-- A step of a row whose payload names its states and its entity.
accepted_step :
    (t : Texts) (event_type : String) (row : Row) (n : Next)
    → get "current_state" row.payload ≡ text n.current_state
    → get "next_state" row.payload ≡ text n.next_state
    → get "entity_type" row.payload ≡ text n.entity_type
    → is_legal event_type n ≡ true
    → is_filled event_type n ≡ true
    → step_allowed t row (build_handler_context row) ≡ true
unfolding build_handler_context is_legal is_filled ◌or◌ truthy str
accepted_step t event_type row n current next entity legal filled =
    rw (current, next, entity) (ground (arith, legal, filled))

-- A payload with a domain signal, and one with none.
signed_check :
    (t : Texts) (row : Row) (c : Context)
    → c.payload ≡ row.payload
    → get "domain_signal" row.payload ≡ bool true
    → validate_state_transition t row c ≡ ok none
unfolding validate_state_transition truthy
signed_check t row c e h = rw (e, h, validate_state_transition) refl

plain_check :
    (t : Texts) (row : Row) (c : Context)
    → c.payload ≡ row.payload
    → get "domain_signal" row.payload ≡ null
    → (row.event_type == "PurchaseOrderCreated") ≡ false
    → step_allowed t row c ≡ true
    → validate_state_transition t row c ≡ ok none
unfolding validate_state_transition truthy
plain_check t row c e h other step = rw (e, h, other, step, validate_state_transition) refl

-- The check of a step accepts every row that has the type and the payload of a default follow-up,
-- with any ids and times, whatever the event and the payload that it follows.
pub default_next-accepted :
    (t : Texts) (event_type aggregate_id correlation_id : String) (scheduled_time : ℕ)
    (payload : Fields) (n : Next) (row : Row)
    → next_config event_type payload ≡ some n
    → row.event_type ≡ n.event_type
    → row.payload ≡ next_payload n aggregate_id correlation_id scheduled_time payload
    → validate_state_transition t row (build_handler_context row) ≡ ok none
unfolding build_handler_context is_filled get
default_next-accepted t event_type aggregate_id correlation_id scheduled_time payload n row h type
      same =
    let step = built-IsStep n aggregate_id correlation_id scheduled_time payload in
    let filled = next_config-all event_type payload n is_filled plain_filled domain_filled h in
    elim (Bool-cases (truthy (get "domain_signal" payload))) [
      | inl signed ↦
          signed_check t row (build_handler_context row) refl (rw (same, step.signal, signed) refl)
      | inr unsigned ↦
          plain_check t row (build_handler_context row) refl (rw (same, step.signal, unsigned) refl)
            (rw type (ground (arith, filled)))
            (accepted_step t event_type row n (rw same step.current) (rw same step.next)
              (rw same step.entity) (plain_entry event_type payload n unsigned h) filled)
    ]
