-- ===== src/Runs/Postponed.antt =====
-- A part of an order postponed, run at the example shop.
use materials_management_sha.Text.{strip, lstrip, rstrip, is_space, is_empty, text_eq}
use materials_management_sha.Stock.{is_positive}
use materials_management_sha.Reservation.Create.{require_project}
use materials_management_sha.Orders.Arrival.{
  insert_remaining, record_local_order_split, remaining_order, root_order, update_order_row,
}
use materials_management_sha.Orders.{
  get_order, assert_order_is_locally_managed, is_arrived, split_ordered, original_quantity,
  record_order_lineage_event, same_id,
}
use materials_management_sha.Movement.{require_positive}
use materials_management_sha.Database.Table.{find, update}
use materials_management_sha.Prelude.{ℕ, ◌≡◌, refl, List, [], ◌∷◌, any_of, keep}
use materials_management_sha.Database.{Db, Result, ok, err}
use materials_management_sha.Orders.Update.{
  Updated, whole, split_off, update_order, check_project, whole_or_split, split_order, split_date,
  owner_of, ordered_rfq_project, child_of, is_ordered_for, mark_manual_override, one_project,
  or_procurement, ordered_procurement_project, procurement_projects, record_eta_update,
  update_whole, with_project, write_split,
}
use materials_management_sha.Shop.{shop, postponement}

abbrev amounts : Result (Updated × Db) → List ℕ
amounts (ok (whole r, s)) = r.order_amount ∷ []
amounts (ok (split_off r c, s)) = r.order_amount ∷ c.order_amount ∷ []
amounts (err e) = []

postponed_amounts : amounts (update_order 4 postponement shop) ≡ 4 ∷ 2 ∷ []
unfolding update_order get_order find assert_order_is_locally_managed strip lstrip rstrip is_space
    is_arrived check_project whole_or_split split_order require_positive split_date split_ordered
    original_quantity owner_of ordered_rfq_project update insert_remaining record_local_order_split
    remaining_order root_order update_order_row child_of is_ordered_for mark_manual_override
    one_project or_procurement ordered_procurement_project procurement_projects record_eta_update
    update_whole with_project write_split record_order_lineage_event same_id any_of keep
    require_project is_positive is_empty text_eq
postponed_amounts = refl
