-- ===== src/Planning/Items.antt =====
-- The planning of one item, from the rows that it reads.
use mathlib.Core.Path.{subst}
use materials_management_sha.Prelude.{
  ℕ, ◌≡◌, refl, ap, sym, ◌∙◌, Option, none, some, List, [], ◌∷◌, map, arith, inl, inr, Option-cases,
}
use materials_management_sha.Drain.Laws.{All}
use materials_management_sha.Database.{Order}
use materials_management_sha.Database.Table.{find, IsKeyed}
use materials_management_sha.Database.Table.Laws.{Stands, Stands-self}
use materials_management_sha.Planning.Events.{Planned, QuotedLine, item_events}
use materials_management_sha.Planning.Timeline.{
  Metric, Lane, Board, new_lane, new_metric, new_board, plan_item,
}
use materials_management_sha.Planning.Outline.{
  outline, outlines, required_of, named, replay-outlines,
}
use materials_management_sha.Planning.Metrics.{IsSound, IsSettled, IsDue, new_metric-IsDue}
use materials_management_sha.Planning.Due.{due, IsDueFor, LaneIsDue, IsDueBoard, replay-Due}
use materials_management_sha.Planning.Demands.{planned_id, needs, item_events-demands}

-- The projects of the planning, and what each requires.
unfoldable pub wanted : List Planned → List (ℕ × Option ℕ)
wanted projects = map (λ p. (p.project_id, p.required)) projects

wanted-new_lane : (projects : List Planned) → outlines (map new_lane projects) ≡ wanted projects
unfolding outlines outline required_of wanted new_lane new_metric
wanted-new_lane [] = refl
wanted-new_lane (p ∷ projects) = ground (arith, wanted-new_lane projects)

find-wanted :
    (pid : ℕ) (projects : List Planned)
    → find planned_id pid projects ≡ none
    → find named pid (wanted projects) ≡ none
unfolding find wanted
find-wanted pid [] h = refl
find-wanted pid (p ∷ projects) h = ground (arith, find-wanted pid projects)

IsKeyed-wanted :
    (projects : List Planned) → IsKeyed planned_id projects → IsKeyed named (wanted projects)
unfolding wanted
IsKeyed-wanted [] h = tt
IsKeyed-wanted (p ∷ projects) h =
    (find-wanted p.project_id projects h.0, IsKeyed-wanted projects h.1)

new_lane-Due :
    (n : ℕ → ℕ) (p : Planned) → n p.project_id ≡ needs p.required → LaneIsDue n (new_lane p)
unfolding LaneIsDue IsDueFor new_lane needs
new_lane-Due n p h = elim (Option-cases p.required) [
  | inl e ↦ rw e tt
  | inr (r, e) ↦
      rw e (subst (λ k. IsDue k (new_metric r)) (sym (h ∙ ap needs e)) (new_metric-IsDue r))
]

-- What a project is told: its figures agree, and what is covered and what is short is what it
-- requires.
unfoldable pub IsTold : Option Metric → Type 0
IsTold none = Unit
IsTold (some m) = IsSound m × IsSettled m

metric-IsTold : (m : Option Metric) → IsDueFor 0 m → IsTold m
unfolding IsDueFor IsTold IsDue
metric-IsTold none h = tt
metric-IsTold (some m) h = (h.0, elim h.1 [ inl s ↦ s.1 | inr w ↦ absurd (omega (arith, w.0)) ])

lanes-IsTold :
    (lanes : List Lane) → All (LaneIsDue (λ q. 0)) lanes → All (λ l. IsTold l.metric) lanes
unfolding LaneIsDue
lanes-IsTold [] h = tt
lanes-IsTold (l ∷ lanes) h = (metric-IsTold l.metric h.0, lanes-IsTold lanes h.1)

new_lanes-Due :
    (n : ℕ → ℕ) (all projects : List Planned)
    → ((pid : ℕ) (p : Planned) → find planned_id pid all ≡ some p → n pid ≡ needs p.required)
    → Stands planned_id all projects
    → All (LaneIsDue n) (map new_lane projects)
new_lanes-Due n all [] h s = tt
new_lanes-Due n all (p ∷ projects) h s =
    (new_lane-Due n p (h p.project_id p s.0), new_lanes-Due n all projects h s.1)

-- Where no project stands twice in the planning, a planning that ends tells every project figures
-- that agree: what is covered and what is short at its start is what it requires, what it lacks and
-- what it recovered later is what was short, and the sources listed add up to what is covered and to
-- what is recovered. The projects are those of the planning, with what each requires.
pub plan_item-IsTold :
    (projects : List Planned) (orders : List Order) (lines : List QuotedLine) (stock item : ℕ)
    (b : Board)
    → IsKeyed planned_id projects
    → plan_item projects orders lines stock item ≡ some b
    → (outlines b.lanes ≡ wanted projects) × All (λ l. IsTold l.metric) b.lanes
unfolding plan_item new_board
plan_item-IsTold projects orders lines stock item b k e =
    let events = item_events projects orders lines item in
    let shape = wanted-new_lane projects in
    let start : IsDueBoard (due events) (new_board stock projects) = record {
      distinct = subst (IsKeyed named) (sym shape) (IsKeyed-wanted projects k);
      figures =
          new_lanes-Due (due events) projects projects
            (λ pid p f. item_events-demands projects orders lines item pid p k f)
            (Stands-self planned_id projects k);
    } in
    (
      replay-outlines events (new_board stock projects) b e ∙ shape,
      lanes-IsTold b.lanes (replay-Due events (new_board stock projects) b e start).figures,
    )
