-- ===== src/Examples/Setup.antt =====
-- Inputs that the examples share.
use daemon_supply_chain.Common.{ℕ, String, Bool, true, false, none, some, [], if◌then◌else◌}
use daemon_supply_chain.Values.{text, dict, end, field, Texts}
use daemon_supply_chain.Queue.{pending, Queue, empty, NewEvent, insert_future_event}
use daemon_supply_chain.Executor.State.{Env, Sim, returns, raises, Handler, Registry}

abbrev pub plain_texts : Texts
plain_texts = record { show = λ v. "?"; parse_int = λ s. none; parse_time = λ s. none }

abbrev pub noon : ℕ
noon = 43200000000

abbrev pub uuids : ℕ → String
uuids n = if leb_one n then "uuid-0" else "uuid-n"
  where
    leb_one : ℕ → Bool
    leb_one n = elim n [ ℕ.zero ↦ true | ℕ.suc m ↦ false ]

abbrev pub lowest : ℕ → ℕ → ℕ → ℕ
lowest n lo hi = lo

abbrev pub env : Env
env = record { texts = plain_texts; now = noon; uuid = uuids; randint = lowest; latency = 1000000 }

abbrev pub succeed : Handler
succeed = record { takes_context = true; call = λ a. returns (dict end) }

abbrev pub fail : Handler
fail = record { takes_context = true; call = λ a. raises "database is down" }

abbrev pub all_succeed : Registry
all_succeed event_type = some succeed

abbrev pub all_fail : Registry
all_fail event_type = some fail

abbrev pub order_event : NewEvent
order_event = record {
  event_type = "PurchaseOrderCreated";
  aggregate_type = "purchase_orders";
  aggregate_id = "PO-1001";
  correlation_id = "corr-1001";
  payload = field "po_id" (text "PO-1001") end;
  scheduled_time = some noon;
  status = pending;
  event_id = some "event-1";
  priority = "high";
  retry_count = 0;
  max_retry_count = 3;
  next_retry_time = none;
}

abbrev pub one_event : Queue
one_event = (insert_future_event noon "uuid-1" order_event empty).1

abbrev pub sim : Sim
sim = record { queue = one_event; log = []; drawn = 1 }
