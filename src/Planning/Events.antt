-- ===== src/Planning/Events.antt =====
-- The events of one item that `_build_project_planning_snapshot` of backend/app/service.py replays:
-- supplies on the dates they arrive and demands on the dates their projects start, in the order
-- that it sorts them.
use materials_management_sha.Prelude.{
  ℕ, suc, Bool, false, ◌||◌, not, Option, none, some, List, [], ◌∷◌, ◌++◌, map, ltb, leb, ◌==◌,
  if◌then◌else◌,
}
use materials_management_sha.Text.{Text, codes, decimal, text_eq}
use materials_management_sha.Database.{Order}
use materials_management_sha.Orders.{is_arrived}
use materials_management_sha.Planning.{Source}

-- An event's "kind", with the keys that only events of the kind have.
pub data Kind : Type 0 where
  dedicated_supply : Source → ℕ → Kind
  generic_supply : Source → Kind
  demand : ℕ → ℕ → Kind

-- The source counts ranks from 0 and gives -1 to an event without a project: `project_rank` here is
-- one more than there.
pub record Event : Type 0 where
  pub kind : Kind
  pub date : ℕ
  pub priority : ℕ
  pub ref_id : ℕ
  pub project_rank : ℕ

-- A row that one of the two queries on quoted lines returns.
pub record QuotedLine : Type 0 where
  pub line_id : ℕ
  pub quantity : ℕ
  pub expected_arrival : ℕ
  pub project_id : Option ℕ
  pub source_type : Text

-- A project of the planning, with its "effective_planned_start" and what it needs of the item.
pub record Planned : Type 0 where
  pub project_id : ℕ
  pub effective_planned_start : ℕ
  pub required : Option ℕ

-- `project_rank.get(pid, 0)`, one more; `n` is the rank of the first project of the list.
unfoldable pub rank_from : ℕ → ℕ → List Planned → ℕ
rank_from pid n [] = 1
rank_from pid n (p ∷ projects) =
    let later = rank_from pid (suc n) projects in if p.project_id == pid then n else later

unfoldable pub rank_of : ℕ → List Planned → ℕ
rank_of pid projects = rank_from pid 1 projects

-- WHERE project_id IS NULL AND status <> 'Arrived' AND expected_arrival IS NOT NULL, of an item
unfoldable pub generic_order_event : ℕ → Order → List Event
generic_order_event item o = order_event (is_arrived o.status) o.expected_arrival o.project_id
  where
    order_event : Bool → Option ℕ → Option ℕ → List Event
    order_event gone none p = []
    order_event gone (some d) (some p) = []
    order_event gone (some d) none =
        if gone || not (o.item_id == item)
        then []
        else record {
          kind = generic_supply (record {
            source_type = codes "generic_order";
            quantity = o.order_amount;
            label = codes "Order #" ++ decimal o.order_id;
            ref_id = some o.order_id;
            project_id = none;
            date = some d;
            status = none;
          });
          date = d;
          priority = 1;
          ref_id = o.order_id;
          project_rank = 0;
        }
          ∷ []

-- Whether a project is of the planning: `project_id IN (...)`
unfoldable pub is_planned : ℕ → List Planned → Bool
is_planned pid [] = false
is_planned pid (p ∷ projects) = let later = is_planned pid projects in p.project_id == pid || later

-- WHERE project_id IN (...) AND status <> 'Arrived' AND expected_arrival IS NOT NULL, of an item
unfoldable pub project_order_event : List Planned → ℕ → Order → List Event
project_order_event projects item o =
    order_event (is_arrived o.status) o.expected_arrival o.project_id
  where
    order_event : Bool → Option ℕ → Option ℕ → List Event
    order_event gone none p = []
    order_event gone (some d) none = []
    order_event gone (some d) (some p) =
        if gone || not (o.item_id == item) || not (is_planned p projects)
        then []
        else record {
          kind =
              dedicated_supply
                (record {
                  source_type = codes "dedicated_order";
                  quantity = o.order_amount;
                  label = codes "Order #" ++ decimal o.order_id;
                  ref_id = some o.order_id;
                  project_id = some p;
                  date = some d;
                  status = none;
                })
                p;
          date = d;
          priority = 0;
          ref_id = o.order_id;
          project_rank = rank_of p projects;
        }
          ∷ []

unfoldable pub procurement_label : QuotedLine → Text
procurement_label line =
    if text_eq line.source_type (codes "quoted_rfq")
    then codes "RFQ Line #" ++ decimal line.line_id ++ codes " [QUOTED]"
    else codes "Procurement Line #" ++ decimal line.line_id ++ codes " [QUOTED]"

unfoldable pub procurement_source : QuotedLine → Source
procurement_source line = record {
  source_type = line.source_type;
  quantity = line.quantity;
  label = procurement_label line;
  ref_id = some line.line_id;
  project_id = line.project_id;
  date = some line.expected_arrival;
  status = some (codes "QUOTED");
}

unfoldable pub procurement_event : List Planned → QuotedLine → Event
procurement_event projects line = line_event line.project_id
  where
    line_event : Option ℕ → Event
    line_event none = record {
      kind = generic_supply (procurement_source line);
      date = line.expected_arrival;
      priority = 1;
      ref_id = line.line_id;
      project_rank = 0;
    }
    line_event (some p) = record {
      kind = dedicated_supply (procurement_source line) p;
      date = line.expected_arrival;
      priority = 0;
      ref_id = line.line_id;
      project_rank = rank_of p projects;
    }

-- The demand of a project, unless it needs none of the item.
unfoldable pub demand_event : List Planned → Planned → List Event
demand_event projects p = needed p.required
  where
    needed : Option ℕ → List Event
    needed none = []
    needed (some n) =
        if n == 0
        then []
        else record {
          kind = demand n p.project_id;
          date = p.effective_planned_start;
          priority = 2;
          ref_id = p.project_id;
          project_rank = rank_of p.project_id projects;
        }
          ∷ []

module _ {A : Type 0} (f : A → List Event) where
  unfoldable pub events_of : List A → List Event
  events_of [] = []
  events_of (x ∷ xs) = f x ++ events_of xs

-- Whether the sort's key of `a` is at most that of `b`: date, priority, rank, reference.
unfoldable pub comes_before : Event → Event → Bool
comes_before a b =
    if not (a.date == b.date)
    then ltb a.date b.date
    else if not (a.priority == b.priority)
    then ltb a.priority b.priority
    else if not (a.project_rank == b.project_rank)
    then ltb a.project_rank b.project_rank
    else leb a.ref_id b.ref_id

-- `events.sort(key=...)`, which keeps the order of events with equal keys
unfoldable pub insert_event : Event → List Event → List Event
insert_event e [] = e ∷ []
insert_event e (x ∷ events) =
    let rest = insert_event e events in if comes_before e x then e ∷ x ∷ events else x ∷ rest

unfoldable pub sort_events : List Event → List Event
sort_events [] = []
sort_events (e ∷ events) = insert_event e (sort_events events)

-- The events of an item as they are appended. Rows come from the queries in the order of their dates
-- and ids, which the sort gives them anyway.
unfoldable pub appended : List Planned → List Order → List QuotedLine → ℕ → List Event
appended projects orders lines item =
    events_of (generic_order_event item) orders
    ++ (events_of (project_order_event projects item) orders
        ++ (map (procurement_event projects) lines ++ events_of (demand_event projects) projects))

-- The events of an item, in the order of the replay.
unfoldable pub item_events : List Planned → List Order → List QuotedLine → ℕ → List Event
item_events projects orders lines item = sort_events (appended projects orders lines item)
