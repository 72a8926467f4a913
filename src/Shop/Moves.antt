-- ===== src/Shop/Moves.antt =====
-- The shop with a move in its log, and the shop after a consumption.
use materials_management_sha.Shop.{shop, stock_room}
use materials_management_sha.Undo.History.{Reaches, here, next, spent}
use materials_management_sha.Undo.{log_key}
use materials_management_sha.Undo.Journal.{undoes_consumption, consumes_in}
use materials_management_sha.Movement.{
  consume_inventory, require_positive, require_item, log_transaction,
}
use materials_management_sha.Stock.{
  find_quantity, is_positive, has_item, apply_inventory_delta, require_non_empty, apply_delta,
  put_stock, lower, set_quantity,
}
use materials_management_sha.Database.Table.{find}
use materials_management_sha.Prelude.{◌≡◌, refl, pos, none, some, [], ◌∷◌, arith, false, ◌/◌, ℕ}
use materials_management_sha.Text.{codes, text_eq, is_empty, strip, lstrip, rstrip, is_space}
use materials_management_sha.Snapshot.Past.{Since, none_yet, called, is_after, IsLast}
use materials_management_sha.Snapshot.Rewind.{IsPlain, IsPlainFor, IsColumn}
use materials_management_sha.Database.{Db, move, LogRow, consume, ok}

-- The log row of a move of 4 from the stock room to the laboratory, with the names as they came in.
abbrev pub move_row : LogRow
move_row = record {
  log_id = 1;
  timestamp = 100;
  operation_type = move;
  item_id = 1;
  quantity = 4;
  from_location = some stock_room;
  to_location = some (codes "LAB");
  note = none;
  is_undone = false;
  undo_of_log_id = none;
  batch_id = none;
}

abbrev pub moved_shop : Db
moved_shop = record shop { log = move_row ∷ []; next_log = 2 }

pub moved-not_consumption :
    (row : LogRow) → find log_key 1 moved_shop.log ≡ some row → undoes_consumption row ≡ false
unfolding find undoes_consumption consumes_in
moved-not_consumption row e = ground arith

-- The shop after 2 have been taken from the stock room.
abbrev pub spent_row : LogRow
spent_row = record {
  log_id = 1;
  timestamp = 100;
  operation_type = consume;
  item_id = 1;
  quantity = 2;
  from_location = some stock_room;
  to_location = none;
  note = none;
  is_undone = false;
  undo_of_log_id = none;
  batch_id = none;
}

abbrev pub spent_shop : Db
spent_shop = record shop {
  stock =
      record { item_id = 1; location = codes "STOCK"; quantity = 8 }
      ∷ record { item_id = 1; location = codes "LAB"; quantity = 2 }
      ∷ [];
  log = spent_row ∷ [];
  next_log = 2;
}

spending : consume_inventory 1 (pos 2) (some stock_room) none none shop ≡ ok (spent_row, spent_shop)
unfolding consume_inventory require_positive require_item is_positive has_item apply_inventory_delta
    require_non_empty apply_delta put_stock lower set_quantity find_quantity log_transaction text_eq
    is_empty strip lstrip rstrip is_space
spending = refl

pub shop-Reaches : Reaches shop spent_shop
shop-Reaches = next here (spent 1 (pos 2) (some stock_room) none none spent_row spending)

-- Five points of time make a day.
abbrev pub day_of : ℕ → ℕ
day_of time = time / 5

pub shop-Since : Since day_of 15 shop (spent_row ∷ []) spent_shop
unfolding IsPlain IsPlainFor IsColumn is_after IsLast strip lstrip rstrip is_space is_empty
shop-Since =
    called spent_row none_yet (spent 1 (pos 2) (some stock_room) none none spent_row spending) refl
      ((refl, refl), refl) refl tt
