-- ===== src/Runs.antt =====
-- The calls of the examples, run: each returns, and the quantities are those expected.
pub mod Undone
pub mod Planned
pub mod Postponed
pub mod Allocated
pub mod Awaited
use materials_management_sha.Prelude.{ℕ, ◌≡◌, refl, pos, some, none}
use materials_management_sha.Database.{Db, Result, ok, err}
use materials_management_sha.Shop.{shop, operations}
use materials_management_sha.Reservation.{
  is_active, holds_stock, holds_incoming, active_allocations, active_incoming, get_reservation,
  requested, or_text, event_text, event_batch, set_batch_id, log_event, drain_stock, drain_incoming,
  shrink_reservation, finish_reservation, release_reservation, consume_rows, consume_reservation,
}
use materials_management_sha.Drain.{insert_part, settle, drain}
use materials_management_sha.Stock.{
  require_non_empty, is_at, find_quantity, quantity_at, upsert, set_quantity, delete_row, lower,
  apply_delta, put_stock, has_item, is_positive, apply_inventory_delta,
}
use materials_management_sha.Movement.{
  require_positive, require_item, log_transaction, same_location, move_inventory, consume_inventory,
  is_zero, taken, given, adjust_inventory, or_else, batch_operation, run_batch,
  batch_inventory_operations,
}
use materials_management_sha.Text.{
  text_eq, is_empty, is_space, lstrip, rstrip, strip, without_suffix, ends_with, decimal, codes,
}
use materials_management_sha.Notes.{
  tx_marker, or_empty, or_none, append_tx_marker, cut_tx_marker, remove_tx_marker, event_note,
}
use materials_management_sha.Database.Table.{find, update, delete}
use materials_management_sha.Prelude.{keep, sum_by, any_of}
use materials_management_sha.Orders.{
  get_order, assert_order_is_locally_managed, is_arrived, original_quantity, split_ordered, same_id,
  same_scope, or_date, forget_order, delete_order_row, record_order_lineage_event, absorb,
  merge_open_orders,
}
use materials_management_sha.Orders.Arrival.{
  arrived_quantity, target_location, root_order, record_local_order_split, remaining_order,
  insert_remaining, arrive_whole, arrive_part, update_order_row, split_arrival, arrive_order,
  awaits, insert_by_age, by_age, stock_allocation, convert_row, convert_rows, follow, follow_split,
  process_order_arrival,
}
use materials_management_sha.Text.Scan.{after_literal}
use materials_management_sha.Orders.Marker.{
  drop_digits, after_digits, after_arrival_marker, without_arrival_markers, arrival_marker,
  arrival_note,
}

abbrev stock_after : {A : Type 0} → Result (A × Db) → ℕ
stock_after (ok (a, s)) = quantity_at 1 (codes "STOCK") s.stock
stock_after (err e) = 999

release_keeps_stock : stock_after (release_reservation 7 (some (pos 4)) none shop) ≡ 10
unfolding is_active holds_stock holds_incoming active_allocations active_incoming get_reservation
    requested or_text event_text event_batch set_batch_id log_event drain_stock drain_incoming
    shrink_reservation finish_reservation release_reservation consume_rows consume_reservation
    insert_part settle drain require_non_empty is_at find_quantity quantity_at upsert set_quantity
    delete_row lower apply_delta put_stock has_item is_positive apply_inventory_delta
    require_positive require_item log_transaction same_location move_inventory consume_inventory
    is_zero taken given adjust_inventory or_else batch_operation run_batch
    batch_inventory_operations text_eq is_empty is_space lstrip rstrip strip without_suffix
    ends_with decimal tx_marker or_empty or_none append_tx_marker cut_tx_marker remove_tx_marker
    event_note find update delete keep sum_by any_of get_order assert_order_is_locally_managed
    is_arrived original_quantity split_ordered same_id same_scope or_date forget_order
    delete_order_row record_order_lineage_event absorb merge_open_orders arrived_quantity
    target_location root_order record_local_order_split remaining_order insert_remaining
    arrive_whole arrive_part update_order_row split_arrival arrive_order awaits insert_by_age by_age
    stock_allocation convert_row convert_rows follow follow_split process_order_arrival
    after_literal drop_digits after_digits after_arrival_marker without_arrival_markers
    arrival_marker arrival_note
release_keeps_stock = refl

consume_takes_stock : stock_after (consume_reservation 7 (some (pos 2)) none shop) ≡ 8
unfolding is_active holds_stock holds_incoming active_allocations active_incoming get_reservation
    requested or_text event_text event_batch set_batch_id log_event drain_stock drain_incoming
    shrink_reservation finish_reservation release_reservation consume_rows consume_reservation
    insert_part settle drain require_non_empty is_at find_quantity quantity_at upsert set_quantity
    delete_row lower apply_delta put_stock has_item is_positive apply_inventory_delta
    require_positive require_item log_transaction same_location move_inventory consume_inventory
    is_zero taken given adjust_inventory or_else batch_operation run_batch
    batch_inventory_operations text_eq is_empty is_space lstrip rstrip strip without_suffix
    ends_with decimal tx_marker or_empty or_none append_tx_marker cut_tx_marker remove_tx_marker
    event_note find update delete keep sum_by any_of get_order assert_order_is_locally_managed
    is_arrived original_quantity split_ordered same_id same_scope or_date forget_order
    delete_order_row record_order_lineage_event absorb merge_open_orders arrived_quantity
    target_location root_order record_local_order_split remaining_order insert_remaining
    arrive_whole arrive_part update_order_row split_arrival arrive_order awaits insert_by_age by_age
    stock_allocation convert_row convert_rows follow follow_split process_order_arrival
    after_literal drop_digits after_digits after_arrival_marker without_arrival_markers
    arrival_marker arrival_note
consume_takes_stock = refl

arrival_adds_stock : stock_after (process_order_arrival 4 (some (pos 3)) none shop) ≡ 13
unfolding is_active holds_stock holds_incoming active_allocations active_incoming get_reservation
    requested or_text event_text event_batch set_batch_id log_event drain_stock drain_incoming
    shrink_reservation finish_reservation release_reservation consume_rows consume_reservation
    insert_part settle drain require_non_empty is_at find_quantity quantity_at upsert set_quantity
    delete_row lower apply_delta put_stock has_item is_positive apply_inventory_delta
    require_positive require_item log_transaction same_location move_inventory consume_inventory
    is_zero taken given adjust_inventory or_else batch_operation run_batch
    batch_inventory_operations text_eq is_empty is_space lstrip rstrip strip without_suffix
    ends_with decimal tx_marker or_empty or_none append_tx_marker cut_tx_marker remove_tx_marker
    event_note find update delete keep sum_by any_of get_order assert_order_is_locally_managed
    is_arrived original_quantity split_ordered same_id same_scope or_date forget_order
    delete_order_row record_order_lineage_event absorb merge_open_orders arrived_quantity
    target_location root_order record_local_order_split remaining_order insert_remaining
    arrive_whole arrive_part update_order_row split_arrival arrive_order awaits insert_by_age by_age
    stock_allocation convert_row convert_rows follow follow_split process_order_arrival
    after_literal drop_digits after_digits after_arrival_marker without_arrival_markers
    arrival_marker arrival_note
arrival_adds_stock = refl

batch_moves_stock :
    stock_after (batch_inventory_operations (codes "batch-1") operations none shop) ≡ 6
unfolding is_active holds_stock holds_incoming active_allocations active_incoming get_reservation
    requested or_text event_text event_batch set_batch_id log_event drain_stock drain_incoming
    shrink_reservation finish_reservation release_reservation consume_rows consume_reservation
    insert_part settle drain require_non_empty is_at find_quantity quantity_at upsert set_quantity
    delete_row lower apply_delta put_stock has_item is_positive apply_inventory_delta
    require_positive require_item log_transaction same_location move_inventory consume_inventory
    is_zero taken given adjust_inventory or_else batch_operation run_batch
    batch_inventory_operations text_eq is_empty is_space lstrip rstrip strip without_suffix
    ends_with decimal tx_marker or_empty or_none append_tx_marker cut_tx_marker remove_tx_marker
    event_note find update delete keep sum_by any_of get_order assert_order_is_locally_managed
    is_arrived original_quantity split_ordered same_id same_scope or_date forget_order
    delete_order_row record_order_lineage_event absorb merge_open_orders arrived_quantity
    target_location root_order record_local_order_split remaining_order insert_remaining
    arrive_whole arrive_part update_order_row split_arrival arrive_order awaits insert_by_age by_age
    stock_allocation convert_row convert_rows follow follow_split process_order_arrival
    after_literal drop_digits after_digits after_arrival_marker without_arrival_markers
    arrival_marker arrival_note
batch_moves_stock = refl

merge_keeps_stock : stock_after (merge_open_orders 3 4 none shop) ≡ 10
unfolding is_active holds_stock holds_incoming active_allocations active_incoming get_reservation
    requested or_text event_text event_batch set_batch_id log_event drain_stock drain_incoming
    shrink_reservation finish_reservation release_reservation consume_rows consume_reservation
    insert_part settle drain require_non_empty is_at find_quantity quantity_at upsert set_quantity
    delete_row lower apply_delta put_stock has_item is_positive apply_inventory_delta
    require_positive require_item log_transaction same_location move_inventory consume_inventory
    is_zero taken given adjust_inventory or_else batch_operation run_batch
    batch_inventory_operations text_eq is_empty is_space lstrip rstrip strip without_suffix
    ends_with decimal tx_marker or_empty or_none append_tx_marker cut_tx_marker remove_tx_marker
    event_note find update delete keep sum_by any_of get_order assert_order_is_locally_managed
    is_arrived original_quantity split_ordered same_id same_scope or_date forget_order
    delete_order_row record_order_lineage_event absorb merge_open_orders arrived_quantity
    target_location root_order record_local_order_split remaining_order insert_remaining
    arrive_whole arrive_part update_order_row split_arrival arrive_order awaits insert_by_age by_age
    stock_allocation convert_row convert_rows follow follow_split process_order_arrival
    after_literal drop_digits after_digits after_arrival_marker without_arrival_markers
    arrival_marker arrival_note
merge_keeps_stock = refl
