-- ===== src/Planning/Timeline.antt =====
-- The replay of one item's events in `_build_project_planning_snapshot` of backend/app/service.py:
-- what each project is given on time, what it lacks, and what later supplies make good.
use materials_management_sha.Prelude.{
  ℕ, ◌+◌, ◌-◌, Bool, false, Option, none, some, List, [], ◌∷◌, ◌++◌, ◌==◌, if◌then◌else◌, map,
}
use materials_management_sha.Text.{codes}
use materials_management_sha.Database.{Order}
use materials_management_sha.Planning.{
  Source, append_planning_source, consume_planning_sources, sum_planning_sources,
}
use materials_management_sha.Planning.Events.{
  Kind, dedicated_supply, generic_supply, demand, Event, Planned, QuotedLine, item_events,
}

-- A project's metrics of the item.
pub record Metric : Type 0 where
  pub required_quantity : ℕ
  pub dedicated_supply_by_start : ℕ
  pub generic_available_at_start : ℕ
  pub generic_allocated_quantity : ℕ
  pub covered_on_time_quantity : ℕ
  pub shortage_at_start : ℕ
  pub future_generic_recovery_quantity : ℕ
  pub future_dedicated_recovery_quantity : ℕ
  pub recovered_after_start_quantity : ℕ
  pub pending_backlog_quantity : ℕ
  pub supply_sources_by_start : List Source
  pub recovery_sources_after_start : List Source

-- A project of `project_sequence`: `metrics[pid].get(item_id)` and `dedicated_ready_sources[pid]`.
pub record Lane : Type 0 where
  pub project_id : ℕ
  pub metric : Option Metric
  pub ready : List Source

-- What the events of an item work on: `generic_pool_sources` and the projects in sequence.
pub record Board : Type 0 where
  pub pool : List Source
  pub lanes : List Lane

unfoldable pub new_metric : ℕ → Metric
new_metric n = record {
  required_quantity = n;
  dedicated_supply_by_start = 0;
  generic_available_at_start = 0;
  generic_allocated_quantity = 0;
  covered_on_time_quantity = 0;
  shortage_at_start = 0;
  future_generic_recovery_quantity = 0;
  future_dedicated_recovery_quantity = 0;
  recovered_after_start_quantity = 0;
  pending_backlog_quantity = 0;
  supply_sources_by_start = [];
  recovery_sources_after_start = [];
}

abbrev metric_of : Option ℕ → Option Metric
metric_of none = none
metric_of (some n) = some (new_metric n)

unfoldable pub new_lane : Planned → Lane
new_lane p = record { project_id = p.project_id; metric = metric_of p.required; ready = [] }

unfoldable pub stock_source : ℕ → Source
stock_source n = record {
  source_type = codes "stock";
  quantity = n;
  label = codes "Current stock";
  ref_id = none;
  project_id = none;
  date = none;
  status = none;
}

-- Before the first event: the stock that is available, and nothing for a project alone.
unfoldable pub new_board : ℕ → List Planned → Board
new_board stock projects = record {
  pool = if stock == 0 then [] else stock_source stock ∷ [];
  lanes = map new_lane projects;
}

-- `for source in sources: _append_planning_source(target, source)`
unfoldable pub append_all : List Source → List Source → List Source
append_all target [] = target
append_all target (x ∷ sources) = append_all (append_planning_source target x) sources

-- What an event of one project reads and writes.
pub record Share : Type 0 where
  pub metric : Metric
  pub ready : List Source
  pub pool : List Source

-- Supply of the project makes its backlog good first; the rest is ready for the project.
unfoldable pub deliver : Source → Share → Share
deliver source s =
    let (recovered, rest) =
      consume_planning_sources (source ∷ []) s.metric.pending_backlog_quantity in
    let n = sum_planning_sources recovered in
    if s.metric.pending_backlog_quantity == 0
    then record s { ready = append_all s.ready (source ∷ []) }
    else record s {
      metric = record s.metric {
        pending_backlog_quantity = s.metric.pending_backlog_quantity - n;
        recovered_after_start_quantity = s.metric.recovered_after_start_quantity + n;
        future_dedicated_recovery_quantity = s.metric.future_dedicated_recovery_quantity + n;
        recovery_sources_after_start = append_all s.metric.recovery_sources_after_start recovered;
      };
      ready = append_all s.ready rest;
    }

-- A project starts: its own supply first, then the pool; what is lacking becomes its backlog.
unfoldable pub start : Share → Share
start s =
    let required = s.metric.required_quantity in
    let (dedicated, ready) = consume_planning_sources s.ready required in
    let own = sum_planning_sources dedicated in
    let (generic, pool) = consume_planning_sources s.pool (required - own) in
    let shared = sum_planning_sources generic in
    record {
      metric = record s.metric {
        generic_available_at_start = sum_planning_sources s.pool;
        dedicated_supply_by_start = own;
        generic_allocated_quantity = shared;
        covered_on_time_quantity = own + shared;
        shortage_at_start = required - own - shared;
        pending_backlog_quantity = required - own - shared;
        supply_sources_by_start =
            append_all s.metric.supply_sources_by_start (dedicated ++ generic);
      };
      ready = ready;
      pool = pool;
    }

-- Supply of no project, at one project: the metric, what is left, and whether the loop breaks.
unfoldable pub recover : List Source → Metric → Metric × List Source × Bool
recover sources m =
    let (recovered, rest) = consume_planning_sources sources m.pending_backlog_quantity in
    let n = sum_planning_sources recovered in
    if m.pending_backlog_quantity == 0 then (m, sources, false) else (
      record m {
        pending_backlog_quantity = m.pending_backlog_quantity - n;
        recovered_after_start_quantity = m.recovered_after_start_quantity + n;
        future_generic_recovery_quantity = m.future_generic_recovery_quantity + n;
        recovery_sources_after_start = append_all m.recovery_sources_after_start recovered;
      },
      rest,
      sum_planning_sources rest == 0,
    )

abbrev recover_lane : List Source → Lane → Option Metric → Lane × List Source × Bool
recover_lane sources l none = (l, sources, false)
recover_lane sources l (some m) =
    let (n, rest, stop) = recover sources m in (record l { metric = some n }, rest, stop)

-- `for pid in project_sequence`: the projects, and what is left of the supply.
unfoldable pub recover_all : List Source → List Lane → List Lane × List Source
recover_all sources [] = ([], sources)
recover_all sources (l ∷ lanes) =
    let (made, rest, stop) = recover_lane sources l l.metric in
    let (others, left) = recover_all rest lanes in
    if stop then (made ∷ lanes, rest) else (made ∷ others, left)

-- `metrics[pid][item_id]` raises KeyError where the project has no metrics of the item: `none`.
abbrev pub share_lane :
    (Share → Share) → List Source → List Lane → Lane → Option Metric → Option Board
share_lane f pool lanes l none = none
share_lane f pool lanes l (some m) =
    let s = f (record { metric = m; ready = l.ready; pool = pool }) in
    some (record {
      pool = s.pool;
      lanes = record l { metric = some s.metric; ready = s.ready } ∷ lanes;
    })

abbrev pub behind : Lane → Option Board → Option Board
behind l none = none
behind l (some b) = some (record b { lanes = l ∷ b.lanes })

-- An event of the project `pid`.
unfoldable pub at_project : (Share → Share) → ℕ → List Source → List Lane → Option Board
at_project f pid pool [] = none
at_project f pid pool (l ∷ lanes) =
    let later = at_project f pid pool lanes in
    if l.project_id == pid then share_lane f pool lanes l l.metric else behind l later

-- The body of `for event in events`.
unfoldable pub step : Kind → Board → Option Board
step (dedicated_supply source pid) b = at_project (deliver source) pid b.pool b.lanes
step (generic_supply source) b =
    let (lanes, rest) = recover_all (source ∷ []) b.lanes in
    some (record { pool = append_all b.pool rest; lanes = lanes })
step (demand quantity pid) b = at_project start pid b.pool b.lanes

abbrev pub and_then : Option Board → (Board → Option Board) → Option Board
and_then none f = none
and_then (some b) f = f b

-- `for event in events`
unfoldable pub replay : List Event → Board → Option Board
replay [] b = some b
replay (e ∷ events) b = and_then (step e.kind b) (replay events)

-- The planning of one item, from the rows that the queries return of it and its available stock.
unfoldable pub plan_item : List Planned → List Order → List QuotedLine → ℕ → ℕ → Option Board
plan_item projects orders lines stock item =
    replay (item_events projects orders lines item) (new_board stock projects)
