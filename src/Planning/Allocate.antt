-- ===== src/Planning/Allocate.antt =====
-- `confirm_project_allocation` of backend/app/service.py: the supply that the planning found for a
-- project by its start, reserved from the stock and assigned from the orders.
use materials_management_sha.Prelude.{
  ℕ, ◌-◌, pos, Bool, ◌||◌, Option, none, some, List, [], ◌∷◌, ◌++◌, ◌==◌, ltb, if◌then◌else◌,
  any_of, ◌&&◌,
}
use materials_management_sha.Text.{Text, codes, text_eq}
use materials_management_sha.Database.{
  Order, Action, ◌>>=◌, ◌>>◌, pure, gets, raise, key_error, project_not_in_planning_pipeline,
  raise_if, planning_snapshot_changed, project_confirmation_required,
}
use materials_management_sha.Reservation.Create.{create_reservation}
use materials_management_sha.Orders.{get_order}
use materials_management_sha.Orders.Update.{Updated, whole, split_off, is_ordered_for, update_order}
use materials_management_sha.Planning.{Source, false, not}

-- Why a source is left as it is.
pub data Reason : Type 0 where
  missing_reference managed_by_procurement managed_by_rfq exceeds_open_quantity : Reason
  missing_expected_arrival already_dedicated unsupported_source_type : Reason

-- An entry of one of the four lists that are returned: "reservations_created", "orders_assigned",
-- "orders_split" and "skipped".
pub data Entry : Type 0 where
  reserved : Option ℕ → ℕ → ℕ → Entry
  assigned : ℕ → ℕ → ℕ → Entry
  parted : ℕ → Option ℕ → ℕ → ℕ → ℕ → Entry
  skipped : ℕ → Option ℕ → Reason → Entry

-- What the request is for: the project, the date, and the texts of its reservations.
pub record Target : Type 0 where
  pub project_id : ℕ
  pub target_date : Option ℕ
  pub purpose : Text
  pub note : Text

-- What the planning has of the project: its status, the signature of its rows, and of each row the
-- item and its "supply_sources_by_start".
pub record Preview : Type 0 where
  pub status : Text
  pub signature : Text
  pub rows : List (ℕ × List Source)

-- Whether the rows are not those that the request was made for.
abbrev pub is_stale : Option Text → Text → Bool
is_stale none signature = false
is_stale (some expected) signature = not (text_eq expected signature)

-- `PLANNING_COMMITTED_PROJECT_STATUSES`
abbrev pub is_committed : Text → Bool
is_committed status = text_eq status (codes "CONFIRMED") || text_eq status (codes "ACTIVE")

module _ (collates : Text → Text → Bool) (dry_run : Bool) (target : Target) where
  -- A source "stock".
  unfoldable pub reserve_stock : ℕ → ℕ → Action Entry
  reserve_stock item n = if dry_run then pure (reserved none item n) else do
    reservation ← create_reservation collates (record {
      item_id = item;
      quantity = pos n;
      project_id = some target.project_id;
      preferred_order_id = none;
      deadline = target.target_date;
      purpose = some target.purpose;
      note = some target.note;
    })
    pure (reserved (some reservation.reservation_id) item n)

  -- update_order(conn, order_id, {"project_id": project_id})
  unfoldable pub assign_order : ℕ → Action Updated
  assign_order id = update_order id (record {
    expected_arrival = none;
    status = none;
    split_quantity = none;
    project_id = some (some target.project_id);
  })

  -- `split_result["created_order"]`, which only an update that splits has.
  unfoldable pub assign_created : ℕ → ℕ → ℕ → ℕ → Updated → Action Entry
  assign_created id item n rest (whole r) = raise key_error
  assign_created id item n rest (split_off r c) = do
    assign_order c.order_id
    pure (parted id (some c.order_id) item n rest)

  -- A part of an order.
  unfoldable pub part_order : ℕ → ℕ → ℕ → Order → Option ℕ → Action Entry
  part_order id item n order none = pure (skipped item (some id) missing_expected_arrival)
  part_order id item n order (some date) =
      if dry_run then pure (parted id none item n (order.order_amount - n)) else do
        split ← update_order id (record {
          expected_arrival = some (some date);
          status = none;
          split_quantity = some (pos n);
          project_id = none;
        })
        assign_created id item n (order.order_amount - n) split

  unfoldable pub assign_from : ℕ → ℕ → ℕ → Order → Action Entry
  assign_from id item n order =
      if ltb order.order_amount n
      then pure (skipped item (some id) exceeds_open_quantity)
      else if n == order.order_amount
      then (if dry_run
          then pure (assigned id item n)
          else assign_order id >> pure (assigned id item n))
      else part_order id item n order order.expected_arrival

  -- A source "generic_order".
  unfoldable pub allocate_order : ℕ → ℕ → Option ℕ → Action Entry
  allocate_order item n none = pure (skipped item none missing_reference)
  allocate_order item n (some id) = do
    procurement ←
        gets (λ s. any_of (λ l. is_ordered_for id l.linked_order_id l.status) s.procurement_lines)
    rfq ← gets (λ s. any_of (λ l. is_ordered_for id l.linked_order_id l.status) s.rfq_lines)
    if procurement || rfq
        then pure (
            skipped item (some id) (if procurement then managed_by_procurement else managed_by_rfq))
        else get_order id >>= assign_from id item n

  unfoldable pub allocate_source : ℕ → Source → Action Entry
  allocate_source item source =
      if text_eq source.source_type (codes "stock")
      then reserve_stock item source.quantity
      else if text_eq source.source_type (codes "generic_order")
      then allocate_order item source.quantity source.ref_id
      else pure (
          skipped item source.ref_id (
            if text_eq source.source_type (codes "dedicated_order")
              || text_eq source.source_type (codes "quoted_procurement")
              || text_eq source.source_type (codes "quoted_rfq")
            then already_dedicated
            else unsupported_source_type))

  -- The sources of one row; a quantity of 0 is passed over.
  unfoldable pub allocate_sources : ℕ → List Source → Action (List Entry)
  allocate_sources item [] = pure []
  allocate_sources item (x ∷ sources) =
      if x.quantity == 0 then allocate_sources item sources else do
        entry ← allocate_source item x
        entries ← allocate_sources item sources
        pure (entry ∷ entries)

  -- The rows of the project: an item and its "supply_sources_by_start".
  unfoldable pub allocate_rows : List (ℕ × List Source) → Action (List Entry)
  allocate_rows [] = pure []
  allocate_rows ((item, sources) ∷ rows) = do
    entries ← allocate_sources item sources
    more ← allocate_rows rows
    pure (entries ++ more)

  -- `confirm_project_allocation`: `none` where the project is not in the planning. One that is there
  -- also has a summary.
  unfoldable pub confirm_project_allocation : Option Preview → Option Text → Action (List Entry)
  confirm_project_allocation none expected = raise project_not_in_planning_pipeline
  confirm_project_allocation (some p) expected = do
    raise_if (is_stale expected p.signature) planning_snapshot_changed
    raise_if (not dry_run && not (is_committed p.status)) project_confirmation_required
    allocate_rows p.rows
