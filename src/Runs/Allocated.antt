-- ===== src/Runs/Allocated.antt =====
-- A confirmed allocation, run at the example shop.
use materials_management_sha.Reservation.{is_active, get_reservation}
use materials_management_sha.Orders.Update.{
  update_order, check_project, whole_or_split, split_order, split_date, owner_of,
  ordered_rfq_project, child_of, is_ordered_for, mark_manual_override, one_project, or_procurement,
  ordered_procurement_project, procurement_projects, record_eta_update, update_whole, with_project,
  write_split,
}
use materials_management_sha.Orders.Arrival.{
  insert_remaining, record_local_order_split, remaining_order, root_order, update_order_row,
}
use materials_management_sha.Stock.{is_positive, has_item, quantity_at}
use materials_management_sha.Supply.{
  available_inventory, sort_stock, available_at, list_available, date_before, insert_stock,
  may_supply, reserves, is_shelf, supplies_before, stands_before, sort_orders, insert_order,
  reserved_at, open_supply, incoming_reserved, order_available, awaited, list_candidates,
}
use materials_management_sha.Reservation.Create.{
  create_reservation, preferred_incoming, require_project, selected_quantity, shortfall_incoming,
  stock_share, insert_allocation, insert_reservation, allocate_stock, insert_incoming,
  allocate_incoming, new_row,
}
use materials_management_sha.Orders.{
  assert_order_is_locally_managed, get_order, is_arrived, original_quantity,
  record_order_lineage_event, same_id, split_ordered,
}
use materials_management_sha.Movement.{require_item, require_positive, log_transaction}
use materials_management_sha.Database.Table.{find, update}
use materials_management_sha.Prelude.{
  ◌≡◌, refl, false, true, none, some, List, [], ◌∷◌, any_of, sum_by, keep,
}
use materials_management_sha.Text.{codes, text_eq, lstrip, is_empty, rstrip, is_space, strip}
use materials_management_sha.Database.{Db, Result, ok, err}
use materials_management_sha.Planning.Allocate.{
  Entry, parted, reserved, confirm_project_allocation, allocate_rows, allocate_sources,
  allocate_source, reserve_stock, allocate_order, assign_from, part_order, assign_order,
  assign_created,
}
use materials_management_sha.Shop.Allocations.{preview, project_shop, target}

abbrev entries : Result (List Entry × Db) → List Entry
entries (ok (l, s)) = l
entries (err e) = []

dry_entries :
    entries (confirm_project_allocation text_eq true target (some preview) none project_shop)
    ≡ reserved none 1 3 ∷ parted 4 none 1 2 4 ∷ []
unfolding confirm_project_allocation allocate_rows allocate_sources allocate_source reserve_stock
    allocate_order any_of get_order find assign_from part_order text_eq
dry_entries = refl

confirmed_entries :
    entries (
      confirm_project_allocation text_eq false target
        (some preview)
        (some (codes "rows"))
        project_shop)
    ≡ reserved (some 8) 1 3 ∷ parted 4 (some 5) 1 2 4 ∷ []
unfolding confirm_project_allocation allocate_rows allocate_sources allocate_source reserve_stock
    allocate_order any_of get_order find assign_from part_order text_eq assign_created assign_order
    update_order assert_order_is_locally_managed strip lstrip rstrip is_space is_arrived
    check_project whole_or_split split_order require_positive split_date split_ordered
    original_quantity owner_of ordered_rfq_project update insert_remaining record_local_order_split
    remaining_order root_order update_order_row child_of is_ordered_for mark_manual_override
    one_project or_procurement ordered_procurement_project procurement_projects record_eta_update
    update_whole with_project write_split record_order_lineage_event same_id keep require_project
    is_positive is_empty create_reservation require_item preferred_incoming shortfall_incoming
    selected_quantity sum_by stock_share available_inventory list_available sort_stock insert_stock
    stands_before is_shelf available_at reserved_at reserves open_supply sort_orders insert_order
    supplies_before date_before may_supply list_candidates order_available incoming_reserved awaited
    insert_reservation allocate_stock insert_allocation allocate_incoming insert_incoming
    get_reservation is_active log_transaction has_item quantity_at new_row
confirmed_entries = refl
