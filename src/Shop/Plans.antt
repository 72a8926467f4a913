-- ===== src/Shop/Plans.antt =====
-- Two projects that need the shop's item, with little stock and two orders that come late.
use materials_management_sha.Orders.{is_arrived}
use materials_management_sha.Planning.{
  add_source, append_planning_source, consume_planning_sources, same_number, same_signature,
  same_text, sum_planning_sources, take_sources,
}
use materials_management_sha.Prelude.{none, some, List, [], ◌∷◌, Option, ◌≡◌, refl, keep, sum_by}
use materials_management_sha.Text.{codes, decimal, text_eq}
use materials_management_sha.Database.{Order}
use materials_management_sha.Planning.Events.{
  Planned, QuotedLine, item_events, sort_events, appended, events_of, generic_order_event,
  insert_event, project_order_event, is_planned, demand_event, comes_before, procurement_event,
  procurement_label, procurement_source, rank_from, rank_of,
}
use materials_management_sha.Planning.Timeline.{
  Board, plan_item, replay, step, at_project, new_board, new_lane, append_all, deliver, new_metric,
  recover, recover_all, start, stock_source,
}
use materials_management_sha.Shop.{order}

-- Project 1 starts on day 10 and needs 5; project 2 starts on day 20 and needs 4.
abbrev pub planned : List Planned
planned =
    record { project_id = 1; effective_planned_start = 10; required = some 5 }
    ∷ record { project_id = 2; effective_planned_start = 20; required = some 4 }
    ∷ []

-- Order 7 brings 3 for all on day 12, order 8 brings 2 for project 2 on day 25.
abbrev pub late_orders : List Order
late_orders =
    record order { order_id = 7; order_amount = 3; project_id = none; expected_arrival = some 12 }
    ∷ record order {
      order_id = 8;
      order_amount = 2;
      project_id = some 2;
      expected_arrival = some 25;
    }
    ∷ []

-- A quotation brings 1 for all on day 30.
abbrev pub quoted : List QuotedLine
quoted =
    record {
      line_id = 9;
      quantity = 1;
      expected_arrival = 30;
      project_id = none;
      source_type = codes "quoted_procurement";
    }
    ∷ []

abbrev empty_board : Board
empty_board = record { pool = []; lanes = [] }

abbrev board_of : Option Board → Board
board_of none = empty_board
board_of (some b) = b

-- The board that the planning of the item ends with, from a stock of 3.
abbrev pub planned_board : Board
planned_board = board_of (plan_item planned late_orders quoted 3 1)

pub planned-planned_board : plan_item planned late_orders quoted 3 1 ≡ some planned_board
unfolding plan_item replay item_events sort_events appended events_of generic_order_event is_arrived
    insert_event project_order_event is_planned demand_event comes_before procurement_event step
    at_project new_board new_lane procurement_label procurement_source rank_from rank_of append_all
    deliver new_metric recover recover_all start stock_source add_source append_planning_source
    consume_planning_sources same_number same_signature same_text sum_planning_sources take_sources
    keep sum_by decimal text_eq
planned-planned_board = refl

pub replayed-planned_board :
    replay (item_events planned late_orders quoted 1) (new_board 3 planned) ≡ some planned_board
unfolding plan_item
replayed-planned_board = planned-planned_board
