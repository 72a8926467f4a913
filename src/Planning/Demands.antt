-- ===== src/Planning/Demands.antt =====
-- How many demands of each project the events of an item have: one, unless it needs nothing.
use materials_management_sha.Prelude.{
  ℕ, ◌+◌, ◌≡◌, refl, ◌∙◌, Option, none, some, List, [], ◌∷◌, ◌++◌, map, arith, ◌==◌, if◌then◌else◌,
  sum_by, sum_by-append,
}
use materials_management_sha.Database.{Order}
use materials_management_sha.Database.Table.{find, IsKeyed}
use materials_management_sha.Planning.Events.{
  Kind, dedicated_supply, generic_supply, demand, Event, Planned, QuotedLine, generic_order_event,
  project_order_event, procurement_event, demand_event, events_of, sort_events, item_events,
  appended,
}
use materials_management_sha.Planning.Sorting.{sum-sort_events}
use materials_management_sha.Planning.Due.{with_event, due}

unfoldable demand_of : ℕ → Kind → ℕ
demand_of pid (dedicated_supply source p) = 0
demand_of pid (generic_supply source) = 0
demand_of pid (demand n p) = if p == pid then 1 else 0

unfoldable demands : ℕ → List Event → ℕ
demands pid events = sum_by (λ e. demand_of pid e.kind) events

with_event-demand : (k : Kind) (n : ℕ → ℕ) (pid : ℕ) → with_event k n pid ≡ demand_of pid k + n pid
unfolding with_event demand_of
with_event-demand (dedicated_supply source p) n pid = omega arith
with_event-demand (generic_supply source) n pid = omega arith
with_event-demand (demand x p) n pid = ground arith

due-demands : (events : List Event) (pid : ℕ) → due events pid ≡ demands pid events
unfolding due demands sum_by
due-demands [] pid = refl
due-demands (e ∷ events) pid =
    omega (arith, with_event-demand e.kind (due events) pid, due-demands events pid)

demands-append : (pid : ℕ) (a b : List Event) → demands pid (a ++ b) ≡ demands pid a + demands pid b
unfolding demands
demands-append pid a b = sum_by-append (λ e. demand_of pid e.kind) a b

demands-sort :
    (pid : ℕ) (events : List Event) → demands pid (sort_events events) ≡ demands pid events
unfolding demands
demands-sort pid events = sum-sort_events (λ e. demand_of pid e.kind) events

no_demand :
    {A : Type 0} (f : A → List Event) (pid : ℕ)
    → ((a : A) → demands pid (f a) ≡ 0)
    → (l : List A) → demands pid (events_of f l) ≡ 0
unfolding demands sum_by events_of
no_demand f pid h [] = refl
no_demand f pid h (a ∷ l) = omega (
  arith,
  sum_by-append (λ e. demand_of pid e.kind) (f a) (events_of f l),
  h a,
  no_demand f pid h l,
)

generic_order_event-demands :
    (pid item : ℕ) (o : Order) → demands pid (generic_order_event item o) ≡ 0
unfolding demands sum_by demand_of generic_order_event
generic_order_event-demands pid item o = ground arith

project_order_event-demands :
    (pid : ℕ) (projects : List Planned) (item : ℕ) (o : Order)
    → demands pid (project_order_event projects item o) ≡ 0
unfolding demands sum_by demand_of project_order_event
project_order_event-demands pid projects item o = ground arith

procurement_event-demands :
    (pid : ℕ) (projects : List Planned) (lines : List QuotedLine)
    → demands pid (map (procurement_event projects) lines) ≡ 0
unfolding demands sum_by demand_of procurement_event
procurement_event-demands pid projects [] = refl
procurement_event-demands pid projects (l ∷ lines) =
    ground (arith, procurement_event-demands pid projects lines)

abbrev pub planned_id : Planned → ℕ
planned_id p = p.project_id

-- Whether a project makes a demand.
unfoldable pub needs : Option ℕ → ℕ
needs none = 0
needs (some n) = if n == 0 then 0 else 1

demand_event-demands :
    (projects : List Planned) (p : Planned) (pid : ℕ)
    → demands pid (demand_event projects p) ≡ (if p.project_id == pid then needs p.required else 0)
unfolding demands sum_by demand_of demand_event needs
demand_event-demands projects p pid = ground arith

demands-cons :
    (all : List Planned) (p : Planned) (projects : List Planned) (pid : ℕ)
    → demands pid (events_of (demand_event all) (p ∷ projects))
      ≡ (if p.project_id == pid then needs p.required else 0)
        + demands pid (events_of (demand_event all) projects)
unfolding events_of demands
demands-cons all p projects pid = omega (
  arith,
  sum_by-append (λ e. demand_of pid e.kind) (demand_event all p)
      (events_of (demand_event all) projects),
  demand_event-demands all p pid,
)

demands-absent :
    (all projects : List Planned) (pid : ℕ)
    → find planned_id pid projects ≡ none
    → demands pid (events_of (demand_event all) projects) ≡ 0
unfolding find events_of demands sum_by
demands-absent all [] pid h = refl
demands-absent all (p ∷ projects) pid h =
    ground (arith, demands-cons all p projects pid, demands-absent all projects pid)

demands-found :
    (all projects : List Planned) (pid : ℕ) (p : Planned)
    → IsKeyed planned_id projects
    → find planned_id pid projects ≡ some p
    → demands pid (events_of (demand_event all) projects) ≡ needs p.required
unfolding find
demands-found all [] pid p k h = absurd cc
demands-found all (x ∷ projects) pid p k h = ground (
  arith,
  demands-cons all x projects pid,
  demands-found all projects pid p k.1,
  demands-absent all projects pid,
)

appended-demands :
    (projects : List Planned) (orders : List Order) (lines : List QuotedLine) (item pid : ℕ)
    → demands pid (appended projects orders lines item)
      ≡ demands pid (events_of (demand_event projects) projects)
unfolding appended
appended-demands projects orders lines item pid =
    let generic = events_of (generic_order_event item) orders in
    let own = events_of (project_order_event projects item) orders in
    let quoted = map (procurement_event projects) lines in
    let wanted = events_of (demand_event projects) projects in
    omega (
      arith,
      demands-append pid generic (own ++ (quoted ++ wanted)),
      demands-append pid own (quoted ++ wanted),
      demands-append pid quoted wanted,
      no_demand (generic_order_event item) pid (generic_order_event-demands pid item) orders,
      no_demand (project_order_event projects item) pid
          (project_order_event-demands pid projects item) orders,
      procurement_event-demands pid projects lines,
    )

pub item_events-demands :
    (projects : List Planned) (orders : List Order) (lines : List QuotedLine) (item pid : ℕ)
    (p : Planned)
    → IsKeyed planned_id projects
    → find planned_id pid projects ≡ some p
    → due (item_events projects orders lines item) pid ≡ needs p.required
unfolding item_events
item_events-demands projects orders lines item pid p k h =
    due-demands (item_events projects orders lines item) pid
    ∙ demands-sort pid (appended projects orders lines item)
    ∙ appended-demands projects orders lines item pid
    ∙ demands-found projects projects pid p k h
