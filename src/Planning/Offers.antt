-- ===== src/Planning/Offers.antt =====
-- What orders and quoted lines hold for the planning of an item, against the events made of them.
use materials_management_sha.Prelude.{
  ℕ, ◌+◌, ◌≤◌, ◌≡◌, refl, Option-cases, ◌||◌, true, false, Bool, ◌&&◌, not, Option, none, some,
  List, [], ◌∷◌, ◌++◌, map, arith, sum_by, ◌==◌, if◌then◌else◌, Bool-cases, inl, inr, sum_by-append,
}
use materials_management_sha.Database.{Order}
use materials_management_sha.Orders.{is_arrived}
use materials_management_sha.Planning.{Source, same_number, same_signature}
use materials_management_sha.Planning.Events.{
  Event, Planned, QuotedLine, appended, events_of, generic_order_event, project_order_event,
  procurement_event, procurement_source, demand_event, is_planned,
}
use materials_management_sha.Planning.Pool.{supply}
use materials_management_sha.Text.{codes, decimal}
use materials_management_sha.Planning.Balance.{brings}

-- What an open order of the item has, where a source refers to it.
unfoldable pub order_offer : Source → ℕ → Order → ℕ
order_offer y item o =
    if o.item_id == item && not (is_arrived o.status) && same_number (some o.order_id) y.ref_id
    then o.order_amount
    else 0

-- What a quoted line has, where a source refers to it.
unfoldable pub line_offer : Source → QuotedLine → ℕ
line_offer y l = if same_number (some l.line_id) y.ref_id then l.quantity else 0

abbrev is_none : Option ℕ → Bool
is_none none = true
is_none (some p) = false

abbrev generic_source : Order → ℕ → Source
generic_source o d = record {
  source_type = codes "generic_order";
  quantity = o.order_amount;
  label = codes "Order #" ++ decimal o.order_id;
  ref_id = some o.order_id;
  project_id = none;
  date = some d;
  status = none;
}

abbrev dedicated_source : Order → ℕ → ℕ → Source
dedicated_source o d p = record {
  source_type = codes "dedicated_order";
  quantity = o.order_amount;
  label = codes "Order #" ++ decimal o.order_id;
  ref_id = some o.order_id;
  project_id = some p;
  date = some d;
  status = none;
}

module _ (y : Source) where
  abbrev brought : List Event → ℕ
  brought events = sum_by (λ e. brings y e.kind) events

  refers :
      (x : Source) → supply y (x ∷ []) ≤ (if same_number x.ref_id y.ref_id then x.quantity else 0)
  unfolding supply sum_by same_signature
  refers x = ground arith

  generic_brings :
      (item : ℕ) (o : Order)
      → brought (generic_order_event item o)
        ≤ (if is_none o.project_id then order_offer y item o else 0)
  unfolding brings generic_order_event order_offer sum_by
  generic_brings item o = elim (Option-cases o.expected_arrival) [
    | inl e ↦ rw e (omega arith)
    | inr (d, e) ↦ elim (Option-cases o.project_id) [
      | inl f ↦ elim (Bool-cases (is_arrived o.status || not (o.item_id == item))) [
        | inl g ↦ rw (e, f, g) (omega arith)
        | inr g ↦ rw (e, f, g) (ground (arith, refers (generic_source o d)))
      ]
      | inr (p, f) ↦ rw (e, f) (omega arith)
    ]
  ]

  project_brings :
      (projects : List Planned) (item : ℕ) (o : Order)
      → brought (project_order_event projects item o)
        ≤ (if is_none o.project_id then 0 else order_offer y item o)
  unfolding brings project_order_event order_offer sum_by
  project_brings projects item o = elim (Option-cases o.expected_arrival) [
    | inl e ↦ rw e (omega arith)
    | inr (d, e) ↦ elim (Option-cases o.project_id) [
      | inl f ↦ rw (e, f) (omega arith)
      | inr (p, f) ↦
          let skips =
            is_arrived o.status || not (o.item_id == item) || not (is_planned p projects) in
          elim (Bool-cases skips) [
            | inl g ↦ rw (e, f, g) (omega arith)
            | inr g ↦ rw (e, f, g) (ground (arith, g, refers (dedicated_source o d p)))
          ]
    ]
  ]

  line_brings :
      (projects : List Planned) (l : QuotedLine)
      → brings y (procurement_event projects l).kind ≤ line_offer y l
  unfolding brings procurement_event procurement_source line_offer
  line_brings projects l = elim (Option-cases l.project_id) [
    | inl e ↦ rw e (refers (procurement_source (record l { project_id = none })))
    | inr (p, e) ↦ rw e (refers (procurement_source (record l { project_id = some p })))
  ]

  generic_all :
      (item : ℕ) (orders : List Order)
      → brought (events_of (generic_order_event item) orders)
        ≤ sum_by (λ o. if is_none o.project_id then order_offer y item o else 0) orders
  unfolding events_of sum_by
  generic_all item [] = omega arith
  generic_all item (o ∷ orders) = omega (
    arith,
    sum_by-append (λ e. brings y e.kind) (generic_order_event item o)
        (events_of (generic_order_event item) orders),
    generic_brings item o,
    generic_all item orders,
  )

  project_all :
      (projects : List Planned) (item : ℕ) (orders : List Order)
      → brought (events_of (project_order_event projects item) orders)
        ≤ sum_by (λ o. if is_none o.project_id then 0 else order_offer y item o) orders
  unfolding events_of sum_by
  project_all projects item [] = omega arith
  project_all projects item (o ∷ orders) = omega (
    arith,
    sum_by-append (λ e. brings y e.kind) (project_order_event projects item o)
        (events_of (project_order_event projects item) orders),
    project_brings projects item o,
    project_all projects item orders,
  )

  both_all :
      (item : ℕ) (orders : List Order)
      → sum_by (λ o. if is_none o.project_id then order_offer y item o else 0) orders
          + sum_by (λ o. if is_none o.project_id then 0 else order_offer y item o) orders
        ≡ sum_by (order_offer y item) orders
  unfolding sum_by
  both_all item [] = refl
  both_all item (o ∷ orders) = ground (arith, both_all item orders)

  lines_all :
      (projects : List Planned) (lines : List QuotedLine)
      → brought (map (procurement_event projects) lines) ≤ sum_by (line_offer y) lines
  unfolding sum_by
  lines_all projects [] = omega arith
  lines_all projects (l ∷ lines) = omega (arith, line_brings projects l, lines_all projects lines)

  demand_brings : (projects : List Planned) (p : Planned) → brought (demand_event projects p) ≡ 0
  unfolding brings demand_event sum_by
  demand_brings projects p = elim (Option-cases p.required) [
    | inl e ↦ rw e refl
    | inr (n, e) ↦ elim (Bool-cases (n == 0)) [ inl z ↦ rw (e, z) refl | inr z ↦ rw (e, z) refl ]
  ]

  demands_all :
      (projects rest : List Planned) → brought (events_of (demand_event projects) rest) ≡ 0
  unfolding events_of sum_by
  demands_all projects [] = refl
  demands_all projects (p ∷ rest) = omega (
    arith,
    sum_by-append (λ e. brings y e.kind) (demand_event projects p)
        (events_of (demand_event projects) rest),
    demand_brings projects p,
    demands_all projects rest,
  )

  -- The events bring no more than the orders and the lines have.
  pub appended-offers :
      (projects : List Planned) (orders : List Order) (lines : List QuotedLine) (item : ℕ)
      → brought (appended projects orders lines item)
        ≤ sum_by (order_offer y item) orders + sum_by (line_offer y) lines
  unfolding appended
  appended-offers projects orders lines item = omega (
    arith,
    sum_by-append (λ e. brings y e.kind) (events_of (generic_order_event item) orders)
        (events_of (project_order_event projects item) orders
          ++ (map (procurement_event projects) lines
              ++ events_of (demand_event projects) projects)),
    sum_by-append (λ e. brings y e.kind) (events_of (project_order_event projects item) orders)
        (map (procurement_event projects) lines ++ events_of (demand_event projects) projects),
    sum_by-append (λ e. brings y e.kind) (map (procurement_event projects) lines)
        (events_of (demand_event projects) projects),
    generic_all item orders,
    project_all projects item orders,
    both_all item orders,
    lines_all projects lines,
    demands_all projects projects,
  )
