-- ===== src/Examples/Plans.antt =====
-- The planning of an item at the example projects, orders and quoted line.
use materials_management_sha.Database.Table.{find}
use materials_management_sha.Prelude.{ℕ, ◌+◌, ◌≡◌, refl, sum_by}
use materials_management_sha.Drain.Laws.{All}
use materials_management_sha.Database.Table.{find}
use materials_management_sha.Planning.Events.{Event, item_events, appended}
use materials_management_sha.Planning.Timeline.{replay, new_board, stock_source}
use materials_management_sha.Planning.Sorting.{IsSorted, item_events-IsSorted}
use materials_management_sha.Planning.Balance.{board_supply, brings, replay-supply}
use materials_management_sha.Planning.Outline.{outlines, is_there, all_find, replay-is_there}
use materials_management_sha.Planning.Items.{IsTold, wanted, plan_item-IsTold}
use materials_management_sha.Planning.Idle.{IsThrifty}
use materials_management_sha.Planning.Plans.{plan_item-Thrifty}
use materials_management_sha.Shop.Plans.{
  planned, late_orders, quoted, planned_board, planned-planned_board, replayed-planned_board,
}

plan_item-IsTold_example :
    (outlines planned_board.lanes ≡ wanted planned) × All (λ l. IsTold l.metric) planned_board.lanes
unfolding find
plan_item-IsTold_example =
    plan_item-IsTold planned late_orders quoted 3 1 planned_board (refl, (refl, tt))
      planned-planned_board

plan_item-Thrifty_example : IsThrifty planned_board
plan_item-Thrifty_example =
    plan_item-Thrifty planned late_orders quoted 3 1 planned_board planned-planned_board

replay-supply_example :
    board_supply (stock_source 3) planned_board
    ≡ board_supply (stock_source 3) (new_board 3 planned)
      + sum_by (λ e. brings (stock_source 3) e.kind) (item_events planned late_orders quoted 1)
replay-supply_example =
    replay-supply (item_events planned late_orders quoted 1) (new_board 3 planned) planned_board
      replayed-planned_board (stock_source 3)

replay-is_there_example :
    is_there (replay (item_events planned late_orders quoted 1) (new_board 3 planned))
    ≡ all_find (outlines (new_board 3 planned).lanes) (item_events planned late_orders quoted 1)
replay-is_there_example =
    replay-is_there (item_events planned late_orders quoted 1) (new_board 3 planned)

item_events-IsSorted_example :
    IsSorted (item_events planned late_orders quoted 1)
    × ((w : Event → ℕ)
        → sum_by w (item_events planned late_orders quoted 1)
          ≡ sum_by w (appended planned late_orders quoted 1))
item_events-IsSorted_example = item_events-IsSorted planned late_orders quoted 1
