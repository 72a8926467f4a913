-- ===== src/Runs/Awaited.antt =====
-- The snapshot of a coming day, run at the example shop: a project that has started requires 4.
use materials_management_sha.Orders.{same_id, is_arrived}
use materials_management_sha.Reservation.{is_active}
use materials_management_sha.Snapshot.{add_pending, net_state, is_pending, state_apply, put}
use materials_management_sha.Supply.{
  incoming_reserved, reserved_at, reserves, available_at, awaited,
}
use materials_management_sha.Prelude.{◌≡◌, refl, true, List, [], ◌∷◌, sum_by, any_of}
use materials_management_sha.Text.{codes, text_eq}
use materials_management_sha.Stock.{quantity_at}
use materials_management_sha.Snapshot.Required.{
  Required, take_required, take_locations, locations_of, stock_cover, sort_names, insert_name,
  incoming_cover, dedicated_cover, remaining, is_for, names_of,
}
use materials_management_sha.Snapshot.Query.{future_state}
use materials_management_sha.Shop.{shop}

abbrev required : List Required
required = record { project_id = 1; item_id = 1; quantity = 4 } ∷ []

future_free : quantity_at 1 (codes "STOCK") (future_state true 40 required shop) ≡ 9
unfolding future_state quantity_at take_required take_locations locations_of add_pending is_pending
    is_arrived incoming_reserved sum_by awaited same_id state_apply is_active net_state text_eq
    available_at reserved_at reserves put remaining stock_cover is_for any_of incoming_cover
    dedicated_cover sort_names names_of insert_name
future_free = refl
