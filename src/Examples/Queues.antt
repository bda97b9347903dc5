-- ===== src/Examples/Queues.antt =====
-- Inputs at which the theorems on the queue apply.
use daemon_supply_chain.Common.{get_elem?, ◌↔◌, ◌≡◌, none, some, [], ◌∷◌}
use daemon_supply_chain.Seeds.{SeedEnv, seed_multi_domain_events}
use daemon_supply_chain.Seeds.Total.{IsSeeding, seed_multi_domain_events-IsSeeding}
use daemon_supply_chain.Queue.{failed, Row, Queue, empty, new_row, ready_refs, insert_future_event}
use daemon_supply_chain.Queue.Marks.{Change, mark_row, mark_event_status, history_entry}
use daemon_supply_chain.Queue.Insert.{IsUnique, insert_future_event-IsUnique}
use daemon_supply_chain.Queue.Ready.{IsOrdered, ready_refs-IsOrdered}
use daemon_supply_chain.Queue.Due.{IsListed, IsDue, ready_refs-IsDue}
use daemon_supply_chain.Queue.Rows.{row_of}
use daemon_supply_chain.Queue.Mark.{target_row, mark_event_status-row_of}
use daemon_supply_chain.Executor.Failure.{failure_change}
use daemon_supply_chain.Values.{end}
use daemon_supply_chain.Examples.Setup.{plain_texts, noon, env, order_event}

abbrev first_row : Row
first_row = new_row noon "uuid-1" order_event

abbrev queued : Queue
queued = record empty { rows = first_row ∷ [] }

queued-IsUnique : IsUnique queued.rows
queued-IsUnique = (tt, tt)

insert_future_event-IsUnique_example :
    IsUnique (insert_future_event noon "uuid-2" order_event queued).1.rows
insert_future_event-IsUnique_example =
    insert_future_event-IsUnique noon "uuid-2" order_event queued queued-IsUnique

ready_refs-IsOrdered_example : IsOrdered plain_texts (ready_refs plain_texts noon none queued.rows)
ready_refs-IsOrdered_example = ready_refs-IsOrdered plain_texts noon none queued.rows

ready_refs-IsDue_example :
    IsListed (0, first_row) (ready_refs plain_texts noon none queued.rows)
    ↔ ((get_elem? queued.rows 0 ≡ some first_row) × IsDue noon none first_row)
ready_refs-IsDue_example = ready_refs-IsDue plain_texts noon none queued.rows 0 first_row

abbrev failure : Change
failure = failure_change env failed "database is down" 4 none end

mark_event_status-row_of_example :
    (row_of "event-1" (mark_event_status plain_texts noon "uuid-2" "event-1" failure queued).rows
      ≡ some (
          mark_row plain_texts failure
            (target_row plain_texts noon "uuid-2" "event-1" failure queued.rows)))
    × ((mark_event_status plain_texts noon "uuid-2" "event-1" failure queued).history
        ≡ history_entry noon failure (
            mark_row plain_texts failure
              (target_row plain_texts noon "uuid-2" "event-1" failure queued.rows))
          ∷ [])
mark_event_status-row_of_example =
    mark_event_status-row_of plain_texts noon "uuid-2" "event-1" failure queued "event-1"

abbrev seed_env : SeedEnv
seed_env = record { now = noon; uuid = λ n. "uuid"; suffix = "20260101120000" }

seed_multi_domain_events-IsSeeding_example :
    IsSeeding noon (seed_multi_domain_events seed_env noon queued)
seed_multi_domain_events-IsSeeding_example =
    seed_multi_domain_events-IsSeeding seed_env noon queued queued-IsUnique
