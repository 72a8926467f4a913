-- ===== src/Planning/Assigned.antt =====
-- `confirm_project_allocation` of backend/app/service.py as a whole, where it returns.
use materials_management_sha.Planning.DryRun.{Unchanged, confirm-Unchanged}
use materials_management_sha.Prelude.{
  ℕ, ◌-◌, ◌≡◌, refl, ◌∙◌, ap, Bool, false, ◌||◌, not, ◌&&◌, Option, none, some, List, [], ◌∷◌, ◌==◌,
  ltb, Bool-cases, inl, inr, any_of,
}
use materials_management_sha.Text.{Text, text_eq, codes}
use materials_management_sha.Database.{Db, Order, Action, Result, continue}
use materials_management_sha.Database.Triples.{
  After, After-reader, After-raise_if, After-continue, After-map, After-both,
}
use materials_management_sha.Database.Table.{find, IsKeyed, Below}
use materials_management_sha.Orders.{order_key}
use materials_management_sha.Orders.Merge.{get_order-After, open_amount}
use materials_management_sha.Orders.Update.{
  OrderUpdate, Updated, whole, split_off, is_ordered_for, update_order,
}
use materials_management_sha.Orders.Parts.{UpdatedFrom}
use materials_management_sha.Orders.Updated.{update_order-Updated}
use materials_management_sha.Reservation.Create.{NewReservation, create_reservation}
use materials_management_sha.Reservation.Kept.{SameOrders, create_reservation-SameOrders}
use materials_management_sha.Planning.{Source, true}
use materials_management_sha.Planning.Allocate.{
  Target, Preview, reserve_stock, assign_order, assign_created, part_order, assign_from,
  allocate_order, allocate_source, allocate_sources, allocate_rows, confirm_project_allocation,
  is_stale, is_committed, reserved,
}

-- The keys of the orders stand once and lie below the next one.
abbrev pub HasOrders : Db → Type 0
HasOrders s = IsKeyed order_key s.orders × Below order_key s.next_order s.orders

-- The open amount of every item and the stock are as they were.
abbrev pub Allots : {A : Type 0} → Db → A → Db → Type 0
Allots s _ t =
    HasOrders t × ((j : ℕ) → open_amount j t.orders ≡ open_amount j s.orders) × (t.stock ≡ s.stock)

Allots-trans :
    {A B : Type 0} (a : A) (b : B) (s t u : Db) → Allots s a t → Allots t b u → Allots s b u
Allots-trans a b s t u h k = (k.0, λ j. k.1 j ∙ h.1 j, k.2 ∙ h.2)

Allots-refl : {A : Type 0} (a : A) (s : Db) → HasOrders s → Allots s a s
Allots-refl a s h = (h, λ j. refl, refl)

-- Behind a step that allots, the rest allots.
module _ {A B : Type 0} where
  then-Allots :
      (s : Db) (x : Result (A × Db)) (f : A → Action B)
      → After (Allots s) x
      → ((a : A) (t : Db) → HasOrders t → After (Allots t) (f a t))
      → After (Allots s) (continue x f)
  then-Allots s x f h k = After-continue (Allots s) (Allots s) x f h λ a t first.
      After-map (Allots t) (Allots s) (f a t) (k a t first.0)
        λ b u next. Allots-trans a b s t u first next

update-Allots :
    (id : ℕ) (payload : OrderUpdate) (s : Db)
    → HasOrders s
    → After (Allots s) (update_order id payload s)
update-Allots id payload s h =
    After-map (UpdatedFrom id s) (Allots s) _ (update_order-Updated id payload s h.0 h.1)
      λ r t (o, found, live, is, stored, kept). ((kept.4, kept.5), kept.1, kept.3)

create-Allots :
    (collates : Text → Text → Bool) (payload : NewReservation) (s : Db)
    → HasOrders s
    → After (Allots s) (create_reservation collates payload s)
create-Allots collates payload s h =
    After-map (λ _ t. SameOrders s t) (Allots s) _
      (create_reservation-SameOrders collates payload s)
      λ r t same. (rw (same.0, same.1) h, λ j. ap (open_amount j) same.0, same.2)

module _ (collates : Text → Text → Bool) (target : Target) where
  assign-Allots :
      (dry_run : Bool) (id : ℕ) (s : Db)
      → HasOrders s
      → After (Allots s) (assign_order collates dry_run target id s)
  unfolding assign_order
  assign-Allots dry_run id s h = update-Allots id _ s h

  created-Allots :
      (dry_run : Bool) (id item n rest : ℕ) (r : Updated) (s : Db)
      → HasOrders s
      → After (Allots s) (assign_created collates dry_run target id item n rest r s)
  unfolding assign_created
  created-Allots dry_run id item n rest (whole r) s h = tt
  created-Allots dry_run id item n rest (split_off r c) s h =
      then-Allots s _ _ (assign-Allots dry_run c.order_id s h) λ r t k. (k, λ j. refl, refl)

module _ (collates : Text → Text → Bool) (dry_run : Bool) (target : Target) where
  reserve-Allots :
      (item n : ℕ) (s : Db)
      → HasOrders s
      → After (Allots s) (reserve_stock collates dry_run target item n s)
  unfolding reserve_stock
  reserve-Allots item n s h = elim (Bool-cases dry_run) [
    | inl e ↦ rw e (Allots-refl (reserved none item n) s h)
    | inr e ↦ rw e (then-Allots s _ _ (create-Allots collates _ s h) λ r t k. (k, λ j. refl, refl))
  ]

  part-Allots :
      (id item n : ℕ) (o : Order) (date : Option ℕ) (s : Db)
      → HasOrders s
      → After (Allots s) (part_order collates dry_run target id item n o date s)
  unfolding part_order
  part-Allots id item n o none s h = (h, λ j. refl, refl)
  part-Allots id item n o (some d) s h = elim (Bool-cases dry_run) [
    | inl e ↦ rw e (h, λ j. refl, refl)
    | inr e ↦ rw e (
        then-Allots s _ _ (update-Allots id _ s h)
          λ r t k. created-Allots collates target false id item n (o.order_amount - n) r t k)
  ]

  from-Allots :
      (id item n : ℕ) (o : Order) (s : Db)
      → HasOrders s
      → After (Allots s) (assign_from collates dry_run target id item n o s)
  unfolding assign_from
  from-Allots id item n o s h = elim (Bool-cases (ltb o.order_amount n)) [
    | inl e ↦ rw e (h, λ j. refl, refl)
    | inr e ↦ elim (Bool-cases (n == o.order_amount)) [
      | inl f ↦ elim (Bool-cases dry_run) [
        | inl d ↦ rw (e, f, d) (h, λ j. refl, refl)
        | inr d ↦
            rw (e, f, d)
              (then-Allots s (assign_order collates false target id s) _
                (assign-Allots collates target false id s h) λ r t k. (k, λ j. refl, refl))
      ]
      | inr f ↦ rw (e, f) (part-Allots id item n o o.expected_arrival s h)
    ]
  ]

  order-Allots :
      (item n : ℕ) (ref_id : Option ℕ) (s : Db)
      → HasOrders s
      → After (Allots s) (allocate_order collates dry_run target item n ref_id s)
  unfolding allocate_order
  order-Allots item n none s h = (h, λ j. refl, refl)
  order-Allots item n (some id) s h =
      let taken =
        any_of (λ l. is_ordered_for id l.linked_order_id l.status) s.procurement_lines
        || any_of (λ l. is_ordered_for id l.linked_order_id l.status) s.rfq_lines in
      elim (Bool-cases taken) [
        | inl e ↦ rw e (h, λ j. refl, refl)
        | inr e ↦ rw e (
            After-reader (λ o. find order_key id s.orders ≡ some o) (Allots s) _ _ s
              (get_order-After id s) λ o _. from-Allots id item n o s h)
      ]

  source-Allots :
      (item : ℕ) (x : Source) (s : Db)
      → HasOrders s
      → After (Allots s) (allocate_source collates dry_run target item x s)
  unfolding allocate_source
  source-Allots item x s h = elim (Bool-cases (text_eq x.source_type (codes "stock"))) [
    | inl e ↦ rw e (reserve-Allots item x.quantity s h)
    | inr e ↦ elim (Bool-cases (text_eq x.source_type (codes "generic_order"))) [
      | inl f ↦ rw (e, f) (order-Allots item x.quantity x.ref_id s h)
      | inr f ↦ rw (e, f) (h, λ j. refl, refl)
    ]
  ]

  sources-Allots :
      (item : ℕ) (sources : List Source) (s : Db)
      → HasOrders s
      → After (Allots s) (allocate_sources collates dry_run target item sources s)
  unfolding allocate_sources
  sources-Allots item [] s h = (h, λ j. refl, refl)
  sources-Allots item (x ∷ sources) s h = elim (Bool-cases (x.quantity == 0)) [
    | inl e ↦ rw e (sources-Allots item sources s h)
    | inr e ↦ rw e (
        then-Allots s _ _ (source-Allots item x s h) λ _ t k.
          then-Allots t _ _ (sources-Allots item sources t k) λ _ u m. (m, λ j. refl, refl))
  ]

  rows-Allots :
      (rows : List (ℕ × List Source)) (s : Db)
      → HasOrders s
      → After (Allots s) (allocate_rows collates dry_run target rows s)
  unfolding allocate_rows
  rows-Allots [] s h = (h, λ j. refl, refl)
  rows-Allots ((item, sources) ∷ rows) s h =
      then-Allots s _ _ (sources-Allots item sources s h)
        λ _ t k. then-Allots t _ _ (rows-Allots rows t k) λ _ u m. (m, λ j. refl, refl)

  confirm-Allots :
      (preview : Option Preview) (expected : Option Text) (s : Db)
      → HasOrders s
      → After (Allots s) (confirm_project_allocation collates dry_run target preview expected s)
  unfolding confirm_project_allocation
  confirm-Allots none expected s h = tt
  confirm-Allots (some p) expected s h =
      After-raise_if (Allots s) (is_stale expected p.signature) _ _ s λ _.
        After-raise_if (Allots s) (not dry_run && not (is_committed p.status)) _ _ s
          λ _. rows-Allots p.rows s h

-- Where no key of the orders stands twice and all lie below the next one, a confirmation that
-- returns, with any rows that the planning may have, leaves the stock and the open amount of every
-- item over all orders as they were, and the keys of the orders still stand once and lie below the
-- next one. A dry run that returns changes nothing at all.
pub confirm_project_allocation-Allots :
    (collates : Text → Text → Bool) (dry_run : Bool) (target : Target) (preview : Option Preview)
    (expected : Option Text) (s : Db)
    → IsKeyed order_key s.orders
    → Below order_key s.next_order s.orders
    → After
        (λ r t. Allots s r t × (dry_run ≡ true → t ≡ s))
        (confirm_project_allocation collates dry_run target preview expected s)
confirm_project_allocation-Allots collates true target preview expected s keyed below =
    After-both (Allots s) (λ _ t. true ≡ true → t ≡ s) _
      (confirm-Allots collates true target preview expected s (keyed, below))
      (After-map (Unchanged s) (λ _ t. true ≡ true → t ≡ s) _
        (confirm-Unchanged collates target preview expected s) λ r t h _. h.0)
confirm_project_allocation-Allots collates false target preview expected s keyed below =
    After-map (Allots s) (λ r t. Allots s r t × (false ≡ true → t ≡ s)) _
      (confirm-Allots collates false target preview expected s (keyed, below)) λ r t h. (h, λ e. cc)
