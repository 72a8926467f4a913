-- ===== src/Orders/Update.antt =====
-- `update_order` of backend/app/service.py, for requests without a document link: a new date or
-- project for an open order, or a part of it split off with a date of its own.
use materials_management_sha.Prelude.{
  ℕ, ◌-◌, ℤ, Bool, true, false, ◌&&◌, not, Option, none, some, List, [], ◌∷◌, map, ◌==◌, leb,
  if◌then◌else◌, keep, any_of, ◌||◌,
}
use materials_management_sha.Text.{Text, codes, text_eq, is_empty}
use materials_management_sha.Database.{
  Order, Split, ProcurementLine, eta_update, eta_split, Action, Result, ok, err, Error, ◌>>=◌, ◌>>◌,
  pure, gets, modify, lift, raise_if, integrity_error, order_already_arrived, invalid_order_status,
  invalid_split_quantity, expected_arrival_required, order_project_managed_by_procurement,
  order_project_managed_by_rfq, procurement_order_project_conflict, rfq_order_project_conflict,
  raise,
}
use materials_management_sha.Movement.{require_positive}
use materials_management_sha.Reservation.Create.{require_project}
use materials_management_sha.Orders.{
  get_order, assert_order_is_locally_managed, is_arrived, original_quantity, split_ordered, same_id,
  record_order_lineage_event,
}
use materials_management_sha.Orders.Arrival.{
  root_order, record_local_order_split, insert_remaining, update_order_row,
}

-- The payload: of a date and a project, whether the key is there, and then its value.
pub record OrderUpdate : Type 0 where
  pub expected_arrival : Option (Option ℕ)
  pub status : Option Text
  pub split_quantity : Option ℤ
  pub project_id : Option (Option ℕ)

-- `if len(project_ids) > 1`, on the projects of the rows
unfoldable pub one_project : Error → List ℕ → Result (Option ℕ)
one_project e [] = ok none
one_project e (p ∷ projects) = if any_of (λ q. not (q == p)) projects then err e else ok (some p)

-- WHERE linked_order_id = ? AND status = 'ORDERED'
unfoldable pub is_ordered_for : ℕ → Option ℕ → Text → Bool
is_ordered_for id linked status = same_id linked (some id) && text_eq status (codes "ORDERED")

abbrev add_project : Bool → Option ℕ → List ℕ → List ℕ
add_project found none projects = projects
add_project found (some p) projects = if found then p ∷ projects else projects

-- AND source_project_id IS NOT NULL
unfoldable pub procurement_projects : ℕ → List ProcurementLine → List ℕ
procurement_projects id [] = []
procurement_projects id (l ∷ lines) =
    add_project (is_ordered_for id l.linked_order_id l.status) l.source_project_id
      (procurement_projects id lines)

-- `_ordered_procurement_project_for_order`
unfoldable pub ordered_procurement_project : ℕ → Action (Option ℕ)
ordered_procurement_project id = do
  projects ← gets (λ s. procurement_projects id s.procurement_lines)
  lift (one_project procurement_order_project_conflict projects)

-- `_ordered_rfq_project_for_order`
unfoldable pub ordered_rfq_project : ℕ → Action (Option ℕ)
ordered_rfq_project id = do
  lines ← gets (λ s. keep (λ l. is_ordered_for id l.linked_order_id l.status) s.rfq_lines)
  lift (one_project rfq_order_project_conflict (map (λ l. l.project_id) lines))

-- `a if a is not None else b`
abbrev or_project : Option ℕ → Option ℕ → Option ℕ
or_project none b = b
or_project (some a) b = some a

abbrev managed_error : Option ℕ → Error
managed_error none = order_project_managed_by_rfq
managed_error (some p) = order_project_managed_by_procurement

abbrev is_other : Option ℕ → Option ℕ → Bool
is_other none project = false
is_other (some m) project = not (same_id (some m) project)

-- The guard on a project that is given; it returns `rfq_project_id`.
unfoldable pub check_project : ℕ → Option (Option ℕ) → Action (Option ℕ)
check_project id none = pure none
check_project id (some project) = do
  require_project project
  procurement ← ordered_procurement_project id
  rfq ← ordered_rfq_project id
  raise_if (is_other (or_project procurement rfq) project) (managed_error procurement)
  pure rfq

abbrev pub or_current : {A : Type 0} → Option A → A → A
or_current none a = a
or_current (some b) a = b

abbrev manual_flag : Option ℕ → ℕ
manual_flag none = 0
manual_flag (some p) = 1

-- SET project_id = ?, project_id_manual = ?, where a project is given
unfoldable pub with_project : Option (Option ℕ) → Order → Order
with_project none o = o
with_project (some p) o = record o { project_id = p; project_id_manual = manual_flag p }

-- The flag that `_mark_local_order_split_manual_override` sets. The column `manual_override_fields`
-- beside it is left out, with the error for one that is not a JSON list.
unfoldable pub mark_manual_override : ℕ → Split → Split
mark_manual_override id p =
    if p.child_order_id == id then record p { is_manual_override = true } else p

abbrev pub is_blank : Option Text → Bool
is_blank none = false
is_blank (some t) = is_empty t

abbrev pub is_unsupported : Option Text → Bool
is_unsupported none = false
is_unsupported (some t) = not (is_empty t || text_eq t (codes "Ordered"))

-- The lineage event of a new date, and the mark on the split that made the order, if one did.
unfoldable pub record_eta_update : ℕ → Order → Order → Action (Unit {0})
record_eta_update id before after = do
  record_order_lineage_event eta_update id id after.order_amount before.expected_arrival
      after.expected_arrival
  modify λ s. record s { splits = map (mark_manual_override id) s.splits }

-- Without a split quantity. A blank status breaks the CHECK of the column at the UPDATE.
unfoldable pub update_whole : ℕ → Order → Option ℕ → OrderUpdate → Action Order
update_whole id current eta payload = do
  raise_if (is_blank payload.status) integrity_error
  update_order_row id
      (λ today o. with_project payload.project_id (record o { expected_arrival = eta }))
  updated ← get_order id
  if same_id current.expected_arrival updated.expected_arrival
      then pure updated
      else record_eta_update id current updated >> pure updated

-- The project of the part that is split off, and whether it was set by hand: it has none where a line
-- of procurement owns the order.
unfoldable pub child_of : Order → Option ℕ → Option (Option ℕ) → Option ℕ → Order
child_of current eta project none = with_project project (record current { expected_arrival = eta })
child_of current eta project (some owner) = record current {
  expected_arrival = eta;
  project_id = none;
  project_id_manual = 0;
}

unfoldable pub or_procurement : ℕ → Option ℕ → Action (Option ℕ)
or_procurement id none = ordered_procurement_project id
or_procurement id (some p) = pure (some p)

-- `rfq_project_id` in a split: the project of the line that owns the order.
unfoldable pub owner_of : ℕ → Option ℕ → Action (Option ℕ)
owner_of id none = ordered_rfq_project id >>= or_procurement id
owner_of id (some p) = pure (some p)

-- What an update returns: the order, or the order and the one split off.
pub data Updated : Type 0 where
  whole : Order → Updated
  split_off : Order → Order → Updated

unfoldable pub split_date : ℕ → Option ℕ → Action ℕ
split_date id none = raise expected_arrival_required
split_date id (some d) = pure d

-- The writes of a split: `n` of the order go to a new order, with the share of the quantity.
unfoldable pub write_split :
    ℕ → Order → Option ℕ → OrderUpdate → Option ℕ → ℕ → ℕ → ℕ → Action Updated
write_split id current eta payload owner n share rest = do
  raise_if (is_blank payload.status) integrity_error
  update_order_row id (λ today o.
      with_project payload.project_id
        (record o { order_amount = current.order_amount - n; ordered_quantity = some rest }))
  child ← insert_remaining (child_of current eta payload.project_id owner) n share
  created ← get_order child
  record_order_lineage_event eta_split id child n current.expected_arrival eta
  root ← gets (λ s. root_order id s.splits)
  record_local_order_split eta_split root child n current.expected_arrival eta true
  updated ← get_order id
  pure (split_off updated created)

-- With a split quantity.
unfoldable pub split_order : ℕ → Order → Option ℕ → OrderUpdate → Option ℕ → ℤ → Action Updated
split_order id current eta payload rfq quantity = do
  n ← require_positive quantity
  raise_if (leb current.order_amount n) invalid_split_quantity
  date ← split_date id eta
  (share, rest) ← split_ordered (original_quantity current) n current.order_amount
  owner ← owner_of id rfq
  write_split id current eta payload owner n share rest

unfoldable pub whole_or_split :
    ℕ → Order → Option ℕ → OrderUpdate → Option ℕ → Option ℤ → Action Updated
whole_or_split id current eta payload rfq none = do
  updated ← update_whole id current eta payload
  pure (whole updated)
whole_or_split id current eta payload rfq (some quantity) =
    split_order id current eta payload rfq quantity

-- `update_order`. The status can only be written as it is: an order that is not arrived is ordered.
unfoldable pub update_order : ℕ → OrderUpdate → Action Updated
update_order id payload = do
  current ← get_order id
  assert_order_is_locally_managed current
  raise_if (is_arrived current.status) order_already_arrived
  raise_if (is_unsupported payload.status) invalid_order_status
  rfq ← check_project id payload.project_id
  whole_or_split id current (or_current payload.expected_arrival current.expected_arrival) payload
      rfq payload.split_quantity
