-- ===== src/Database/Rows.antt =====
-- The tables of backend/alembic/versions/001_initial_schema.py (with the columns that 014 and 016
-- add) that the modelled functions read and write. Dates and times are numbers that only the clock
-- and comparisons touch; the audit columns, which triggers fill, are left out.
use materials_management_sha.Prelude.{ℕ, Bool, List, Option}
use materials_management_sha.Text.{Text}

-- inventory_ledger
pub record StockRow : Type 0 where
  pub item_id : ℕ
  pub location : Text
  pub quantity : ℕ

pub data Operation : Type 0 where
  move consume reserve adjust arrival : Operation

-- transaction_log
pub record LogRow : Type 0 where
  pub log_id : ℕ
  pub timestamp : ℕ
  pub operation_type : Operation
  pub item_id : ℕ
  pub quantity : ℕ
  pub from_location : Option Text
  pub to_location : Option Text
  pub note : Option Text
  pub is_undone : Bool
  pub undo_of_log_id : Option ℕ
  pub batch_id : Option Text

pub data Status : Type 0 where
  active released consumed converted shortage : Status

-- reservations
pub record Reservation : Type 0 where
  pub reservation_id : ℕ
  pub item_id : ℕ
  pub quantity : ℕ
  pub purpose : Option Text
  pub deadline : Option ℕ
  pub status : Status
  pub released_at : Option ℕ
  pub note : Option Text
  pub project_id : Option ℕ

-- reservation_allocations: what a reservation holds of the stock
pub record Allocation : Type 0 where
  pub allocation_id : ℕ
  pub reservation_id : ℕ
  pub item_id : ℕ
  pub location : Text
  pub quantity : ℕ
  pub status : Status
  pub created_at : ℕ
  pub released_at : Option ℕ
  pub note : Option Text

-- reservation_incoming_allocations: what a reservation holds of an order that has not arrived
pub record Incoming : Type 0 where
  pub incoming_allocation_id : ℕ
  pub reservation_id : ℕ
  pub item_id : ℕ
  pub order_id : Option ℕ
  pub quantity : ℕ
  pub status : Status
  pub expected_arrival_snapshot : Option ℕ
  pub target_location : Option Text
  pub created_at : ℕ
  pub updated_at : ℕ
  pub released_at : Option ℕ
  pub note : Option Text

pub data OrderStatus : Type 0 where
  ordered arrived : OrderStatus

-- orders
pub record Order : Type 0 where
  pub order_id : ℕ
  pub item_id : ℕ
  pub quotation_id : Option ℕ
  pub purchase_order_id : ℕ
  pub project_id : Option ℕ
  pub project_id_manual : ℕ
  pub order_amount : ℕ
  pub ordered_quantity : Option ℕ
  pub ordered_item_number : Option Text
  pub order_date : ℕ
  pub expected_arrival : Option ℕ
  pub arrival_date : Option ℕ
  pub status : OrderStatus
  pub source_system : Text

pub data LineageType : Type 0 where
  eta_update eta_split eta_merge arrival_split : LineageType

-- order_lineage_events
pub record Lineage : Type 0 where
  pub event_type : LineageType
  pub source_order_id : ℕ
  pub target_order_id : ℕ
  pub quantity : ℕ
  pub previous_expected_arrival : Option ℕ
  pub new_expected_arrival : Option ℕ

-- local_order_splits
pub record Split : Type 0 where
  pub split_type : LineageType
  pub root_order_id : ℕ
  pub child_order_id : ℕ
  pub split_quantity : ℕ
  pub root_expected_arrival : Option ℕ
  pub child_expected_arrival : Option ℕ
  pub is_manual_override : Bool

-- procurement_lines
pub record ProcurementLine : Type 0 where
  pub line_id : ℕ
  pub source_project_id : Option ℕ
  pub linked_order_id : Option ℕ
  pub status : Text

-- rfq_lines, with the project of the line's batch
pub record RfqLine : Type 0 where
  pub line_id : ℕ
  pub project_id : ℕ
  pub linked_order_id : Option ℕ
  pub status : Text

-- The database that a request works on, with the clock that it reads. A `next_` field is the
-- identity column's next value.
pub record Db : Type 0 where
  pub now : ℕ
  pub today : ℕ
  pub items : List ℕ
  pub projects : List ℕ
  pub stock : List StockRow
  pub log : List LogRow
  pub next_log : ℕ
  pub reservations : List Reservation
  pub next_reservation : ℕ
  pub allocations : List Allocation
  pub next_allocation : ℕ
  pub incoming : List Incoming
  pub next_incoming : ℕ
  pub orders : List Order
  pub next_order : ℕ
  pub lineage : List Lineage
  pub splits : List Split
  pub procurement_lines : List ProcurementLine
  pub rfq_lines : List RfqLine
