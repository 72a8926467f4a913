-- ===== src/Lib.antt =====
-- Materials management: the stock, its movements and the reservations of backend/app/service.py.
--
-- The program is a FastAPI service over PostgreSQL. A route of backend/app/api.py calls one
-- function of backend/app/service.py, which reads and writes tables through `conn`, and commits
-- when that function has returned. The model takes the functions of service.py as actions on a
-- value `Db` that holds the tables:
--
--   Prelude      tests on numbers, lists, integers (Python's `int`)
--   Text         Python's `str` as a list of code points: `strip`, `endswith`, `str(n)`
--   Database     the tables (backend/alembic/versions), errors, and actions; Table has the SQL
--                statements on one row, Triples the rules for what an action does
--   Stock        `_get_inventory_quantity` and `_apply_inventory_delta`
--   Movement     `_log_transaction`, `move_inventory`, `consume_inventory`, `adjust_inventory`,
--                `batch_inventory_operations`; Flows says what the log says of the ledger
--   Notes        the `[[tx:N]]` markers in the notes of allocations
--   Drain        the loop over allocation rows that release and consumption share
--   Reservation  `release_reservation` and `consume_reservation`; Holdings has the consistency of
--                reservations with their allocations; Create has `create_reservation` and
--                `update_reservation`
--   Supply       what is available of an item, `_list_item_available_inventory`,
--                `_list_item_open_incoming_supply` and `_select_incoming_order_candidates`
--   Restore      the loop by which the undo of a release or a consumption revives allocation rows
--   Undo         `undo_transaction`, with the conversions of an arrival in Arrival and the reading of
--                a batch's name in Context; History has sequences of inventory calls as steps
--   Planning     the pools of supply that the project planning takes from; Events and Timeline have
--                the planning of one item in `_build_project_planning_snapshot`, Allocate has
--                `confirm_project_allocation`
--   Orders       `process_order_arrival`, `merge_open_orders` and, in Update, `update_order`
--   Snapshot     `get_inventory_snapshot`, in Query: Rewind takes a row of the log back, Past has the
--                calls since a day, Future the expected stock, Required what started projects take
--   Integrity    the checks of reservations in `get_operational_integrity_summary`
--   Shop         concrete data; Examples has the theorems at it, Runs the same calls, run
--
-- Every movement goes through `_apply_inventory_delta`; a movement also writes one row of the log.
-- A reservation holds rows of two allocation tables; a release ends some of them, a consumption
-- ends some and takes their stock.
--
-- Choices:
--   - An error carries no database. An error leaves the request without a commit, and closing the
--     connection rolls back.
--   - An `AppError` is its code; message, HTTP status and details are left out. `None.strip()` is
--     `attribute_error`, a missing key of a dict `key_error`; a broken foreign key or CHECK of the
--     tables is `integrity_error`.
--   - `undo_transaction` returns the row that it logs; the applied quantity that the program returns
--     beside it is the row's quantity. Of a selected order the fixed target location is left out.
--   - Dates and times are numbers. `now` is the one value that the clock gives in a call.
--   - Rows stand in the order of their primary keys, so that `ORDER BY` of a key reads them as they
--     stand. The name of an unnamed batch, `uuid4().hex`, is an argument.
--   - `get_reservation` also joins the item and adds a summary of the backing for display, which
--     no function here reads.
--   - The functions run in one transaction: the advisory locks, the second reading of a row behind
--     a lock, the audit columns and PostgreSQL's 32-bit bound on INTEGER are not modelled.
--   - Recursion is structural but for two functions on fuel: `decimal` writes `n` in at most `n + 1`
--     steps, because each step divides it by 10, and `without_arrival_markers` runs on the length of
--     the text, because each step takes a character.
--   - A CHECK or foreign key that a modelled statement cannot break under its guards is not tested
--     again. The lineage events and splits keep the columns that carry data: their fixed notes,
--     times of creation and fixed mode are left out.
--   - The planning of an item takes the rows of its queries on projects and quoted lines as they are.
--     A KeyError of the planning is `none`. Ranks are counted from 1, and 0 stands for no project,
--     where the source counts from 0 and has -1.
--   - `confirm_project_allocation` takes what the planning has of the project as an argument, and the
--     texts of its reservations. Its four lists of results are one list of entries, and the rest of
--     what it returns, which repeats the planning, is left out.
--   - A snapshot takes what the committed projects that have started require of an item, as
--     `_aggregate_project_required_by_item` gives it, as an argument, in the order of the loop.
--   - A payload of `update_order` has its date parsed and no document link; its fields say whether a
--     key is there. A line of an RFQ stands with the project of its batch.
--   - In the patterns `\d` stands for the digits 0 to 9, and `\w` for the ASCII letters, the digits
--     and `_`.
--   - The dates that `merge_open_orders`, `create_reservation` and `update_reservation` take are
--     already parsed. The database's collation, by which `_list_item_available_inventory` orders the
--     locations, is an argument of `create_reservation`, of which nothing is assumed.
--
-- Not modelled: `delete_order`, the document link of `update_order`, the column
-- `manual_override_fields` of a split with the error for one that is not a JSON list, the summaries
-- of the planning over items, the other checks of the integrity summary, the tables and columns that
-- no modelled function reads, what describes the entries of a snapshot, catalog, imports,
-- procurement, the mirrors of external systems, HTTP, authentication and storage.
pub mod Prelude
pub mod Text
pub mod Database
pub mod Stock
pub mod Movement
pub mod Notes
pub mod Drain
pub mod Reservation
pub mod Orders
pub mod Planning
pub mod Integrity
pub mod Restore
pub mod Runs
pub mod Shop
pub mod Snapshot
pub mod Supply
pub mod Undo
pub mod Examples
