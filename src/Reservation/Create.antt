-- ===== src/Reservation/Create.antt =====
-- `create_reservation` and `update_reservation` of backend/app/service.py.
use materials_management_sha.Prelude.{
  ℕ, ◌+◌, ◌-◌, ℤ, pos, min, Bool, true, false, Option, none, some, List, [], ◌∷◌, ◌++◌, ◌==◌,
  if◌then◌else◌, sum_by, any_of, not,
}
use materials_management_sha.Text.{Text, codes, decimal}
use materials_management_sha.Database.{
  Db, Reservation, active, reserve, Action, ok, err, ◌>>=◌, ◌>>◌, pure, gets, modify, raise_if,
  project_not_found, reservation_not_active, Allocation, Incoming,
}
use materials_management_sha.Database.Table.{update}
use materials_management_sha.Movement.{log_transaction, require_positive, require_item, or_else}
use materials_management_sha.Reservation.{get_reservation, is_active}
use materials_management_sha.Supply.{
  Available, available_inventory, Selected, select_incoming_order_candidates,
}

-- The payload of a new reservation; the deadline is already parsed.
pub record NewReservation : Type 0 where
  pub item_id : ℕ
  pub quantity : ℤ
  pub project_id : Option ℕ
  pub preferred_order_id : Option ℕ
  pub deadline : Option ℕ
  pub purpose : Option Text
  pub note : Option Text

-- `_get_entity_or_404` on `projects`, where a project is given
unfoldable pub require_project : Option ℕ → Action (Unit {0})
require_project none s = ok (tt, s)
require_project (some p) s =
    if any_of (λ i. i == p) s.projects then ok (tt, s) else err project_not_found

-- The first selection, for the preferred order.
unfoldable pub preferred_incoming : NewReservation → ℕ → Action (List Selected)
preferred_incoming payload n = elim payload.preferred_order_id [
  | none ↦ pure []
  | some p ↦
      select_incoming_order_candidates payload.item_id n payload.project_id (some p)
        payload.deadline [] false
]

unfoldable pub excluded_orders : Option ℕ → List ℕ
excluded_orders none = []
excluded_orders (some p) = p ∷ []

-- The second selection, for what neither the preferred order nor the stock covers.
unfoldable pub shortfall_incoming : NewReservation → ℕ → Action (List Selected)
shortfall_incoming payload n =
    if n == 0
    then pure []
    else select_incoming_order_candidates payload.item_id n payload.project_id none payload.deadline
        (excluded_orders payload.preferred_order_id) true

unfoldable pub new_row : NewReservation → ℕ → ℕ → Reservation
new_row payload n id = record {
  reservation_id = id;
  item_id = payload.item_id;
  quantity = n;
  purpose = payload.purpose;
  deadline = payload.deadline;
  status = active;
  released_at = none;
  note = payload.note;
  project_id = payload.project_id;
}

unfoldable pub insert_reservation : NewReservation → ℕ → Action ℕ
insert_reservation payload n s = ok (
  s.next_reservation,
  record s {
    reservations = s.reservations ++ new_row payload n s.next_reservation ∷ [];
    next_reservation = s.next_reservation + 1;
  },
)

unfoldable pub new_allocation : NewReservation → ℕ → Available → ℕ → Db → Allocation
new_allocation payload id a n s = record {
  allocation_id = s.next_allocation;
  reservation_id = id;
  item_id = payload.item_id;
  location = a.location;
  quantity = n;
  status = active;
  created_at = s.now;
  released_at = none;
  note = or_else payload.note payload.purpose;
}

-- The loop that inserts stock allocations.
unfoldable pub insert_allocation : NewReservation → ℕ → Available → ℕ → Db → Db
insert_allocation payload id a n s = record s {
  allocations = s.allocations ++ new_allocation payload id a n s ∷ [];
  next_allocation = s.next_allocation + 1;
}

unfoldable pub allocate_stock : NewReservation → ℕ → List Available → ℕ → Db → Db
allocate_stock payload id [] remaining s = s
allocate_stock payload id (a ∷ l) remaining s =
    let n = min a.quantity remaining in
    let rest = allocate_stock payload id l (remaining - n) (insert_allocation payload id a n s) in
    if remaining == 0 then s else rest

unfoldable pub new_incoming : NewReservation → ℕ → Selected → Db → Incoming
new_incoming payload id x s = record {
  incoming_allocation_id = s.next_incoming;
  reservation_id = id;
  item_id = payload.item_id;
  order_id = some x.order_id;
  quantity = x.quantity;
  status = active;
  expected_arrival_snapshot = x.expected_arrival;
  target_location = none;
  created_at = s.now;
  updated_at = s.now;
  released_at = none;
  note = or_else payload.note payload.purpose;
}

-- The loop that inserts incoming allocations.
unfoldable pub insert_incoming : NewReservation → ℕ → Selected → Db → Db
insert_incoming payload id x s = record s {
  incoming = s.incoming ++ new_incoming payload id x s ∷ [];
  next_incoming = s.next_incoming + 1;
}

unfoldable pub allocate_incoming : NewReservation → ℕ → List Selected → Db → Db
allocate_incoming payload id [] s = s
allocate_incoming payload id (x ∷ l) s =
    allocate_incoming payload id l (insert_incoming payload id x s)

unfoldable pub selected_quantity : List Selected → ℕ
selected_quantity l = sum_by (λ x. x.quantity) l

unfoldable pub stock_share : List Available → ℕ → ℕ
stock_share rows n = min (sum_by (λ a. a.quantity) rows) n

-- `create_reservation`
unfoldable pub create_reservation : (Text → Text → Bool) → NewReservation → Action Reservation
create_reservation collates payload = do
  n ← require_positive payload.quantity
  require_project payload.project_id
  require_item payload.item_id
  preferred ← preferred_incoming payload n
  rows ← gets (available_inventory collates payload.item_id)
  more ←
      shortfall_incoming payload
        (n - selected_quantity preferred - stock_share rows (n - selected_quantity preferred))
  id ← insert_reservation payload n
  log_transaction reserve payload.item_id (pos n) none none (or_else payload.note payload.purpose)
      (some (codes "reservation-" ++ decimal id)) none
  modify (allocate_stock payload id rows (stock_share rows (n - selected_quantity preferred)))
  modify (allocate_incoming payload id (preferred ++ more))
  get_reservation id

-- COALESCE(?, column)
unfoldable pub coalesce : {A : Type 0} → Option A → Option A → Option A
coalesce none b = b
coalesce (some a) b = some a

-- `update_reservation`, of its purpose, deadline and note; the deadline is already parsed.
unfoldable pub update_reservation : ℕ → Option Text → Option ℕ → Option Text → Action Reservation
update_reservation id purpose deadline note = do
  r ← get_reservation id
  raise_if (not (is_active r.status)) reservation_not_active
  modify λ s. record s {
    reservations =
        update (λ r. r.reservation_id) id
          (λ r. record r {
            purpose = coalesce purpose r.purpose;
            deadline = coalesce deadline r.deadline;
            note = coalesce note r.note;
          })
          s.reservations;
  }
  get_reservation id
