-- ===== src/Database/Errors.antt =====
-- backend/app/errors.py: `AppError`, by the codes that the modelled functions raise. The message,
-- the HTTP status and the details of an error are left out.
pub data Error : Type 0 where
  invalid_field invalid_quantity invalid_location invalid_operation : Error
  item_not_found project_not_found transaction_not_found : Error
  insufficient_stock : Error
  reservation_not_found reservation_not_active invalid_reservation_quantity : Error
  reservation_allocation_inconsistent reservation_not_ready_to_consume : Error
  order_not_found order_already_arrived order_source_system_missing : Error
  order_managed_externally invalid_arrival_quantity partial_split_not_integer_safe : Error
  invalid_partial_split invalid_merge_pair order_merge_scope_mismatch : Error
  invalid_order_status invalid_split_quantity expected_arrival_required : Error
  project_not_in_planning_pipeline planning_snapshot_changed : Error
  project_confirmation_required : Error
  order_project_managed_by_procurement order_project_managed_by_rfq : Error
  procurement_order_project_conflict rfq_order_project_conflict : Error
  invalid_preferred_order preferred_order_fully_allocated : Error
  -- Python's AttributeError on None and its KeyError, and the driver's IntegrityError
  attribute_error key_error integrity_error : Error
  already_undone undo_not_possible undo_not_supported : Error
  invalid_snapshot_mode invalid_snapshot_basis snapshot_basis_mode_unsupported : Error

-- What a call returns, or the error that it raises.
pub data Result {ℓ} (A : Type ℓ) : Type ℓ where
  ok : A → Result A
  err : Error → Result A
