-- ===== src/Runs/Undone.antt =====
-- Creations and undos, run on the shop.
use materials_management_sha.Prelude.{
  ℕ, ◌≡◌, refl, pos, some, none, Bool, true, false, keep, sum_by, any_of,
}
use materials_management_sha.Text.{
  text_eq, is_empty, strip, lstrip, rstrip, is_space, decimal, ends_with, without_suffix,
}
use materials_management_sha.Notes.{tx_marker, or_none, remove_tx_marker, cut_tx_marker}
use materials_management_sha.Database.{Db, Result, ok, err, undo_not_possible, move, ◌>>=◌}
use materials_management_sha.Database.Table.{find, update, delete}
use materials_management_sha.Stock.{
  require_non_empty, is_at, find_quantity, quantity_at, upsert, set_quantity, delete_row, lower,
  apply_delta, put_stock, has_item, is_positive, apply_inventory_delta,
}
use materials_management_sha.Movement.{
  require_positive, require_item, log_transaction, same_location, move_inventory, or_else,
}
use materials_management_sha.Orders.{same_id, is_arrived}
use materials_management_sha.Reservation.{
  is_active, get_reservation, holds_stock, holds_incoming, or_text,
}
use materials_management_sha.Reservation.Holdings.{held, stock_weight, incoming_weight}
use materials_management_sha.Reservation.Create.{
  require_project, preferred_incoming, excluded_orders, shortfall_incoming, new_row,
  insert_reservation, new_allocation, insert_allocation, allocate_stock, new_incoming,
  insert_incoming, allocate_incoming, selected_quantity, stock_share, create_reservation,
}
use materials_management_sha.Supply.{
  reserves, reserved_at, available_at, stands_before, insert_stock, sort_stock, is_shelf,
  list_available, available_inventory, awaited, incoming_reserved, order_available, may_supply,
  date_before, supplies_before, insert_order, sort_orders, list_candidates, open_supply, is_late,
  take_candidates, fill_from_orders, select_incoming_order_candidates,
}
use materials_management_sha.Restore.{first, restore_onto, restore_row, restore}
use materials_management_sha.Undo.{
  get_transaction, undo_batch, log_undo, quantity_of, undoable, undo_move, undo_row, mark_undone,
  undo_transaction, undo_rows, undo_incoming_rows, has_marker, status_code, is_consumed, regain,
  regain_reservation, restore_stock_rows, restore_incoming_rows, undo_release,
}
use materials_management_sha.Shop.{shop, request, stock_room, lab}
use materials_management_sha.Shop.Releases.{partly_released}

-- Whether a call is refused as an undo that is not possible.
abbrev refused : {A : Type 0} → Result (A × Db) → Bool
refused (err undo_not_possible) = true
refused _ = false

abbrev held_after : {A : Type 0} → ℕ → Result (A × Db) → ℕ
held_after k (ok (a, s)) = held k s
held_after k (err e) = 0

-- A move to a name with spaces around it cannot be undone.
undo_of_lab :
    refused (
      (move_inventory 1 (pos 4) (some stock_room) (some lab) none none move >>= λ row.
      undo_transaction row.log_id none)
        shop)
    ≡ true
unfolding require_non_empty is_at find_quantity quantity_at upsert set_quantity delete_row lower
    apply_delta put_stock has_item is_positive apply_inventory_delta require_positive require_item
    log_transaction same_location move_inventory or_else text_eq is_empty strip lstrip rstrip
    is_space decimal find update get_transaction undo_batch log_undo quantity_of undoable undo_move
    undo_row mark_undone undo_transaction or_text
undo_of_lab = refl

-- A request beyond the shelves is held of the shelves and of the open orders.
creation_holds : held_after 8 (create_reservation (λ a b. true) request shop) ≡ 12
unfolding require_positive is_positive require_project require_item has_item preferred_incoming
    available_inventory list_available available_at quantity_at find_quantity is_at reserved_at
    reserves sort_stock insert_stock stands_before is_shelf text_eq keep sum_by any_of
    selected_quantity stock_share shortfall_incoming select_incoming_order_candidates
    fill_from_orders open_supply may_supply sort_orders insert_order supplies_before date_before
    list_candidates order_available incoming_reserved awaited same_id is_arrived is_active
    take_candidates is_late excluded_orders insert_reservation new_row log_transaction or_else
    is_empty decimal allocate_stock insert_allocation new_allocation allocate_incoming
    insert_incoming new_incoming get_reservation find held stock_weight incoming_weight holds_stock
    holds_incoming create_reservation
creation_holds = refl

-- The undo of a release gives the quantity back.
undo_holds : held_after 7 (undo_release 7 9 1 2 none partly_released) ≡ 7
unfolding undo_release get_reservation find is_consumed status_code undo_rows undo_incoming_rows
    keep has_marker ends_with without_suffix tx_marker decimal sum_by text_eq restore_stock_rows
    restore_incoming_rows restore restore_row restore_onto first update delete regain_reservation
    regain log_undo undo_batch log_transaction is_positive has_item any_of held stock_weight
    incoming_weight holds_stock holds_incoming is_active same_id remove_tx_marker cut_tx_marker
    or_none strip lstrip rstrip is_space is_empty
undo_holds = refl
