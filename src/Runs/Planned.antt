-- ===== src/Runs/Planned.antt =====
-- The planning of an item, run on concrete rows.
use materials_management_sha.Text.{decimal, text_eq}
use materials_management_sha.Orders.{is_arrived}
use materials_management_sha.Planning.{
  add_source, append_planning_source, consume_planning_sources, same_number, same_signature,
  same_text, sum_planning_sources, take_sources,
}
use materials_management_sha.Prelude.{
  ℕ, ◌≡◌, refl, false, none, some, List, [], ◌∷◌, map, Option, keep, sum_by,
}
use materials_management_sha.Planning.Events.{
  Planned, item_events, sort_events, appended, events_of, generic_order_event, insert_event,
  project_order_event, is_planned, demand_event, comes_before, procurement_event, procurement_label,
  procurement_source, rank_from, rank_of,
}
use materials_management_sha.Planning.Timeline.{
  plan_item, Metric, Board, replay, step, at_project, new_board, new_lane, append_all, deliver,
  new_metric, recover, recover_all, start, stock_source,
}
use materials_management_sha.Planning.Outline.{is_there}
use materials_management_sha.Shop.Plans.{planned, late_orders, quoted}

abbrev figures_of : Option Metric → List ℕ
figures_of none = []
figures_of (some m) =
    m.required_quantity ∷ m.covered_on_time_quantity ∷ m.shortage_at_start
    ∷ m.future_generic_recovery_quantity ∷ m.future_dedicated_recovery_quantity
    ∷ m.pending_backlog_quantity ∷ []

abbrev figures : Option Board → List (List ℕ)
figures none = []
figures (some b) = map (λ l. figures_of l.metric) b.lanes

-- Project 1 gets the stock and then a part of order 7, project 2 the rest of it, its own order and the
-- quoted line.
planned_figures :
    figures (plan_item planned late_orders quoted 3 1)
    ≡ (5 ∷ 3 ∷ 2 ∷ 2 ∷ 0 ∷ 0 ∷ []) ∷ (4 ∷ 1 ∷ 3 ∷ 1 ∷ 2 ∷ 0 ∷ []) ∷ []
unfolding plan_item replay item_events sort_events appended events_of generic_order_event is_arrived
    insert_event project_order_event is_planned demand_event comes_before procurement_event step
    at_project new_board new_lane procurement_label procurement_source rank_from rank_of append_all
    deliver new_metric recover recover_all start stock_source add_source append_planning_source
    consume_planning_sources same_number same_signature same_text sum_planning_sources take_sources
    keep sum_by decimal text_eq
planned_figures = refl

abbrev one_needs : List Planned
one_needs =
    record { project_id = 1; effective_planned_start = 10; required = some 5 }
    ∷ record { project_id = 2; effective_planned_start = 20; required = none }
    ∷ []

-- An order for a project that does not require its item ends the planning with a KeyError, where
-- another project requires the item.
stray_order : is_there (plan_item one_needs late_orders [] 3 1) ≡ false
unfolding plan_item replay item_events sort_events appended events_of generic_order_event is_arrived
    insert_event project_order_event is_planned demand_event comes_before procurement_event step
    at_project new_board new_lane procurement_label procurement_source rank_from rank_of append_all
    deliver new_metric recover recover_all start stock_source add_source append_planning_source
    consume_planning_sources same_number same_signature same_text sum_planning_sources take_sources
    keep sum_by decimal text_eq is_there
stray_order = refl
