-- ===== src/Planning/Plans.antt =====
-- What the planning of an item gives, against the stock, the orders and the quoted lines that it
-- reads, and what it leaves.
use materials_management_sha.Text.{text_eq, codes}
use materials_management_sha.Planning.Offers.{order_offer, line_offer}
use materials_management_sha.Prelude.{
  ℕ, ◌+◌, ◌≡◌, refl, some, List, [], ◌∷◌, map, arith, sum_by, inr, if◌then◌else◌,
}
use materials_management_sha.Drain.Laws.{All}
use materials_management_sha.Database.{Order}
use materials_management_sha.Planning.{Source}
use materials_management_sha.Planning.Events.{Planned, QuotedLine, item_events}
use materials_management_sha.Planning.Timeline.{Board, new_lane, new_metric, new_board, plan_item}
use materials_management_sha.Planning.Balance.{given_to}
use materials_management_sha.Planning.Idle.{
  pending, backlog, backlogs, IsUsed, IsThrifty, replay-Thrifty,
}

-- What a planning gives its projects under a signature, on time or later.
unfoldable pub given_in : Source → Board → ℕ
given_in y b = sum_by (λ l. given_to y l.metric) b.lanes

-- The stock, for a source of its type.
unfoldable pub stock_offer : Source → ℕ → ℕ
stock_offer y stock = if text_eq (codes "stock") y.source_type then stock else 0

-- What the stock, the open orders of the item and the quoted lines hold of what a source refers to.
unfoldable pub offers : Source → List Order → List QuotedLine → ℕ → ℕ → ℕ
offers y orders lines stock item =
    stock_offer y stock + (sum_by (order_offer y item) orders + sum_by (line_offer y) lines)

new_lanes-backlogs : (projects : List Planned) → backlogs (map new_lane projects) ≡ 0
unfolding backlogs sum_by backlog pending new_lane new_metric
new_lanes-backlogs [] = refl
new_lanes-backlogs (p ∷ projects) = ground (arith, new_lanes-backlogs projects)

new_lanes-Used : (projects : List Planned) → All IsUsed (map new_lane projects)
unfolding IsUsed backlog pending new_lane new_metric
new_lanes-Used [] = tt
new_lanes-Used (p ∷ projects) = (ground arith, new_lanes-Used projects)

-- A planning that ends leaves no project short while supply that it could take lies unused: if any
-- project still has a backlog, the pool of supply for all is empty, and a project with a backlog has
-- no supply of its own left.
pub plan_item-Thrifty :
    (projects : List Planned) (orders : List Order) (lines : List QuotedLine) (stock item : ℕ)
    (b : Board)
    → plan_item projects orders lines stock item ≡ some b
    → IsThrifty b
unfolding plan_item new_board
plan_item-Thrifty projects orders lines stock item b e =
    replay-Thrifty (item_events projects orders lines item) (new_board stock projects) b e
      (record { shared = inr (new_lanes-backlogs projects); owned = new_lanes-Used projects })
