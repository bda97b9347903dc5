-- ===== src/Lib.antt =====
-- A verification library for the supply-chain simulator: the event loop under simulator/, and
-- the generators that move stock, from the shipment of a supplier to the delivery to a customer.
--
-- The program keeps a queue of future events. A cycle (simulator/master_simulator.py) lists the events
-- that are due since its checkpoint, passes those that the run window admits to the executor, and puts
-- the follow-ups that an execution asks for back into the queue. The executor
-- (simulator/core/event_scheduler/event_executor.py) checks the event's step against the state machine,
-- calls the handler of its type, and marks the event as completed, failed, skipped or to be retried.
--
-- Files, and the code that they model:
--   StateMachine   simulator/core/event_state_machine.py: the machines, validate_transition, inference
--   Contracts      simulator/core/contracts.py: run windows, and the order of shift events
--   Timing         simulator/core/event_timing.py: delays and future times
--   Values         the dicts of payloads: get, put, set_default, truth and text of Python values
--   Queue          simulator/core/event_scheduler/event_queue.py with memory_mode: rows, insertion,
--                  listing; Marks the writes; Insert, Ready (the order of a listing), Due (what it lists),
--                  Rows and Mark hold the proofs
--   Executor       simulator/core/event_scheduler/event_executor.py, `_execute` with memory_mode, in
--                  the order of the code: Prepare, Resolve, Failure, Merge, Success, Run; State has the state
--                  and the monad of code that may raise after it wrote; Settles, Repeat, Retries,
--                  Follow and Accepted hold the proofs
--   Checkpoint     simulator/core/checkpointing.py
--   Cycle          simulator/master_simulator.py: Cycle and Future the code, Later and Checkpoints proofs
--   Scheduler      simulator/core/event_scheduler/scheduler.py
--   Outbox         simulator/core/outbox.py, and the writes of event_queue.py to the table event_outbox
--                  where it is not in memory_mode: Outbox the insertions, Updates the updates; Unique the proofs
--   Handlers       simulator/event_handlers/base.py: Handlers what it makes of a result, Calls the call
--                  of the generator and the handler around it; Results the proofs
--   Manager        api/services/simulation_control.py: Manager the blocks under the lock, Steps the steps of
--                  API calls and of any number of worker threads in any order, Reach and Later the proofs
--   Tables         the rows of the tables of stock; Transport those of shipments to customers
--   Stock          the database of these tables, and the generators on it; Queries has the statements
--                  they share:
--     Allocate          simulator/generators/inventory/inventory_allocation_created.py
--     Reserve           simulator/generators/inventory/inventory_reserved.py
--     StockIncreased    simulator/generators/inventory/stock_increased.py
--     PickingTasks      simulator/generators/warehouse/picking_task_created.py, picking_task_started.py
--     PickingCompleted  simulator/generators/warehouse/picking_completed.py
--     PackingTasks      simulator/generators/warehouse/packing_task_created.py, packing_task_started.py
--     PackingCompleted  simulator/generators/warehouse/packing_completed.py
--     Receiving         simulator/generators/warehouse/receiving_task_created_inbound.py and
--                       receiving_task_started.py
--     GoodsReceived     simulator/generators/warehouse/goods_received.py; Receipts and Received the proofs
--     Putaway           simulator/generators/inventory/inventory_putaway.py; Places the proofs on its choice
--     Inbound           simulator/generators/purchase_order/asn_received.py and
--                       simulator/generators/supplier/supplier_shipment_delivered.py; Delivered the proofs
--     Arrived           simulator/generators/transportation/shipment_arrived.py and
--                       simulator/generators/warehouse/receiving_task_created.py, whose function is
--                       generate_receiving_task_created_for; Duplicates the proofs
--     Counts, TaskStarted, CountsCompleted, Adjusted
--                       simulator/generators/inventory/cycle_count_created.py, task_started.py,
--                       cycle_count_completed.py and inventory_adjusted.py; SoundCounts, Stuck and
--                       Adjustments have the proofs on them
--     Ledger, Capacity, Sound, SoundIncrease, SoundReceiving, SoundArrived, SoundPutaway, SoundPicking,
--     SoundPacking and Steps have the proofs that the rows agree with the transactions and that the
--     locations have room; Split and Allocated those on what an allocation adds; Rounds, Reserved, Again
--     and Packed those on what is reserved and packed, and that it is reserved once; Chosen has
--     lemmas on the row that a query picks
--   Outbound       the generators of shipments to customers in simulator/generators/transportation, and the
--                  statements that they share:
--     Ready, Carrier    shipment_ready.py and carrier_assigned.py
--     PickedUp          vehicle_assigned.py and shipment_picked_up.py
--     InTransit         shipment_in_transit.py
--     Delivered         shipment_delivered.py
--     Lockstep, Exclusive, Loads, Pickups, Advance, AdvanceEarly, AdvanceLate, AdvanceTransit,
--     AdvanceDelivered and Steps have the proofs that shipments and what carries them move in step and
--     that nothing carries two; Conflict that on what follows a pick-up
--   Seeds          simulator/core/multi_domain.py: the root events of a run; Total has the proofs
--   Ids            simulator/core/ids.py: ids from sequences; RoundTrip and Fresh have the proofs
--   Common         shared helpers; Common.Keyed has tables with unique keys, Common.Integers the integers,
--                  Common.Stateful has code on a state that may raise, the transactions of
--                  simulator/core/db.py, and the lemmas that carry a property through such code
--   Examples       concrete inputs
--
-- The model: a function keeps the name of its Python function, but for
-- generate_receiving_task_created_for. State is passed explicitly; an exception is an error value, and
-- the state that the code wrote before it stays. A row object of the queue is its position, since rows
-- are only appended. Times are microseconds in UTC; the texts of times are not modelled. Ids are
-- texts. Numbers in payloads are natural. Case folding and trimming are those of ASCII. The clock,
-- uuid4, randint, the latency setting, the handlers, and the text of numbers and containers are
-- parameters; the clock stands still within one execution. Loops are structural recursion; the only
-- fuel is that of the digits of a number, which is the number. Where an exception escapes late from an
-- execution, what it merged into the payload by then is not written to the row.
--
-- A table of PostgreSQL is a list of rows; a statement that breaks a unique index is an error that
-- changes nothing. A generator behind a handler, and the status of a purchase order, are parameters. A
-- cycle of a run is one step with any result, and the two locks of the manager are the steps'
-- atomicity.
--
-- A generator of stock is a transaction on the database: where it raises, nothing is kept. The rows of
-- its tables have the columns that the generators use; foreign keys are taken to hold, and
-- transactions to run one after the other. The column available_quantity is what is on hand less what
-- is reserved and damaged, as the comments of the generators say. The rows of warehouse_tasks are kept
-- as four lists, by the task type, with one primary key. A sequence goes back with its transaction,
-- where PostgreSQL leaves a gap. The text of an error is its first line. Random texts and numbers, the
-- order of texts in PostgreSQL, SIMULATION_CORRELATION_ID, the wall clock, the two float scores of a
-- count and the number that stands for a negative one in a payload are parameters. The values of a
-- sequence start anywhere. The counts and the arrival of shipments take the wall clock, the rest the
-- simulation's.
--
-- A generator of outbound shipments returns the id of the shipment. round(random.uniform) and the now() of
-- PostgreSQL, which is the wall clock, are parameters; a query with LIMIT 1 and no order takes the first
-- row of its table. The delay after a pickup is in whole minutes, as the code draws it.
--
-- Not modelled: the listing of the PostgreSQL queue and the executor's PostgreSQL log, state and report
-- files and prints, the other generators, the routes of the API, and the Spark and Airflow
-- jobs. Among the generators is inventory_received.py, which changes the stock with no transaction. The
-- reason and the history entry in the report of a skipped event are left out, and so is what dict()
-- makes of a list of pairs: a list that is not empty raises TypeError.
pub mod Common
pub mod StateMachine
pub mod Contracts
pub mod Timing
pub mod Values
pub mod Queue
pub mod Checkpoint
pub mod Executor
pub mod Cycle
pub mod Examples
pub mod Outbox
pub mod Manager
pub mod Handlers
pub mod Scheduler
pub mod Tables
pub mod Stock
pub mod Outbound
pub mod Ids
pub mod Seeds
