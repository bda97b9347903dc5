-- ===== src/Examples/Services.antt =====
-- Inputs at which the theorems on the outbox, the handlers and the runs of the API apply.
use daemon_supply_chain.Common.{
  String, ◌≡◌, refl, ◌↔◌, true, false, none, some, List, [], ◌∷◌, value_error, ok, err,
}
use daemon_supply_chain.Values.{text, dict, Fields, end, field, get, truthy, ◌or◌, str}
use daemon_supply_chain.Queue.{Row, new_row}
use daemon_supply_chain.Executor.Prepare.{ids_differ, dict_or_empty}
use daemon_supply_chain.Outbox.{OutboxRow, published_row, publish_event, future_row}
use daemon_supply_chain.Outbox.Unique.{IsPublished, publish_event-IsPublished}
use daemon_supply_chain.Handlers.Calls.{check_purchase_order}
use daemon_supply_chain.Handlers.Results.{check_purchase_order-ids_differ}
use daemon_supply_chain.Manager.{Run, running, paused, new_run, pause, resume}
use daemon_supply_chain.Manager.Steps.{leaving, State, at, paused_by_call, Reaches, here, more}
use daemon_supply_chain.Manager.Reach.{IsSound, started, start-IsSound}
use daemon_supply_chain.Manager.Later.{resume_while_leaving}
use daemon_supply_chain.Examples.Setup.{noon, env, order_event}

abbrev outbox : List OutboxRow
outbox = future_row noon "uuid-1" order_event ∷ []

publish_event-IsPublished_example :
    (id : String) × ((publish_event noon "event-2" "PurchaseOrderCreated" "purchase_orders"
        "PO-1001" "corr-1001" end outbox).0
      ≡ ok id)
    × IsPublished
        (published_row noon "event-2" "PurchaseOrderCreated" "purchase_orders" "PO-1001" "corr-1001"
          end)
        id
        (publish_event noon "event-2" "PurchaseOrderCreated" "purchase_orders" "PO-1001" "corr-1001"
          end outbox).1
unfolding future_row
publish_event-IsPublished_example =
    publish_event-IsPublished noon "event-2" "PurchaseOrderCreated" "purchase_orders" "PO-1001"
      "corr-1001" end outbox refl

abbrev order_row : Row
order_row = new_row noon "uuid-1" order_event

abbrev order_context : Fields
order_context =
    field "aggregate_id" (text "PO-1001") (field "payload" (dict order_event.payload) end)

check_purchase_order-ids_differ_example :
    (check_purchase_order env.texts order_context ≡ err value_error) ↔ (false ≡ true)
unfolding new_row get ids_differ dict_or_empty truthy ◌or◌ str
check_purchase_order-ids_differ_example =
    check_purchase_order-ids_differ env.texts order_row order_context false refl refl refl

abbrev first_run : State
first_run = started noon (some 8) "morning" none

abbrev paused_run : State
paused_run = at (pause first_run.run) first_run.workers

pausing : Reaches first_run paused_run
pausing = more (paused_by_call first_run.run first_run.workers) (here paused_run)

start-IsSound_example : IsSound paused_run
start-IsSound_example = start-IsSound noon (some 8) "morning" none paused_run pausing

abbrev asked_run : Run
asked_run = record (new_run noon none "morning" none) {
  pause_requested = true;
  worker_active = true;
}

abbrev late_run : Run
late_run = record asked_run { status = paused }

resume_while_leaving_example :
    (s : State) × Reaches (at late_run (leaving ∷ [])) s
    × (s.run.status ≡ running)
    × (s.run.pause_requested ≡ false)
    × (s.workers ≡ [])
    × ((resume s.run).1 ≡ false)
resume_while_leaving_example = resume_while_leaving late_run refl refl
