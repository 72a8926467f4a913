-- ===== src/Planning/DryRun.antt =====
-- A dry run of `confirm_project_allocation` of backend/app/service.py.
use materials_management_sha.Prelude.{
  ℕ, ◌≡◌, refl, Bool, true, ◌||◌, Option, none, some, List, [], ◌∷◌, ◌==◌, ltb, Bool-cases, inl,
  inr, any_of,
}
use materials_management_sha.Text.{Text, text_eq, codes}
use materials_management_sha.Database.{Db, Order}
use materials_management_sha.Database.Triples.{After, After-reader, After-raise_if}
use materials_management_sha.Database.Table.{find}
use materials_management_sha.Orders.{order_key}
use materials_management_sha.Orders.Merge.{get_order-After}
use materials_management_sha.Orders.Update.{is_ordered_for}
use materials_management_sha.Planning.{Source}
use materials_management_sha.Planning.Allocate.{
  Target, Preview, reserve_stock, part_order, assign_from, allocate_order, allocate_source,
  allocate_sources, allocate_rows, confirm_project_allocation, is_stale,
}

abbrev pub Unchanged : {A : Type 0} → Db → A → Db → Type 0
Unchanged s _ t = (t ≡ s) × Unit {0}

module _ (collates : Text → Text → Bool) (target : Target) where
  part-Unchanged :
      (id item n : ℕ) (o : Order) (date : Option ℕ) (s : Db)
      → After (Unchanged s) (part_order collates true target id item n o date s)
  unfolding part_order
  part-Unchanged id item n o none s = (refl, tt)
  part-Unchanged id item n o (some d) s = (refl, tt)

  from-Unchanged :
      (id item n : ℕ) (o : Order) (s : Db)
      → After (Unchanged s) (assign_from collates true target id item n o s)
  unfolding assign_from
  from-Unchanged id item n o s = elim (Bool-cases (ltb o.order_amount n)) [
    | inl e ↦ rw e (refl, tt)
    | inr e ↦ elim (Bool-cases (n == o.order_amount)) [
      | inl f ↦ rw (e, f) (refl, tt)
      | inr f ↦ rw (e, f) (part-Unchanged id item n o o.expected_arrival s)
    ]
  ]

  order-Unchanged :
      (item n : ℕ) (ref_id : Option ℕ) (s : Db)
      → After (Unchanged s) (allocate_order collates true target item n ref_id s)
  unfolding allocate_order
  order-Unchanged item n none s = (refl, tt)
  order-Unchanged item n (some id) s =
      let taken =
        any_of (λ l. is_ordered_for id l.linked_order_id l.status) s.procurement_lines
        || any_of (λ l. is_ordered_for id l.linked_order_id l.status) s.rfq_lines in
      elim (Bool-cases taken) [
        | inl e ↦ rw e (refl, tt)
        | inr e ↦ rw e (
            After-reader (λ o. find order_key id s.orders ≡ some o) (Unchanged s) _ _ s
              (get_order-After id s) λ o _. from-Unchanged id item n o s)
      ]

  source-Unchanged :
      (item : ℕ) (x : Source) (s : Db)
      → After (Unchanged s) (allocate_source collates true target item x s)
  unfolding allocate_source reserve_stock
  source-Unchanged item x s = elim (Bool-cases (text_eq x.source_type (codes "stock"))) [
    | inl e ↦ rw e (refl, tt)
    | inr e ↦ elim (Bool-cases (text_eq x.source_type (codes "generic_order"))) [
      | inl f ↦ rw (e, f) (order-Unchanged item x.quantity x.ref_id s)
      | inr f ↦ rw (e, f) (refl, tt)
    ]
  ]

  sources-Unchanged :
      (item : ℕ) (sources : List Source) (s : Db)
      → After (Unchanged s) (allocate_sources collates true target item sources s)
  unfolding allocate_sources
  sources-Unchanged item [] s = (refl, tt)
  sources-Unchanged item (x ∷ sources) s = elim (Bool-cases (x.quantity == 0)) [
    | inl e ↦ rw e (sources-Unchanged item sources s)
    | inr e ↦ rw e (
        After-reader (λ _. Unit) (Unchanged s) _ _ s (source-Unchanged item x s)
          λ _ _.
            After-reader (λ _. Unit) (Unchanged s) _ _ s (sources-Unchanged item sources s)
              λ _ _. (refl, tt))
  ]

  rows-Unchanged :
      (rows : List (ℕ × List Source)) (s : Db)
      → After (Unchanged s) (allocate_rows collates true target rows s)
  unfolding allocate_rows
  rows-Unchanged [] s = (refl, tt)
  rows-Unchanged ((item, sources) ∷ rows) s =
      After-reader (λ _. Unit) (Unchanged s) _ _ s (sources-Unchanged item sources s)
        λ _ _.
          After-reader (λ _. Unit) (Unchanged s) _ _ s (rows-Unchanged rows s) λ _ _. (refl, tt)

  pub confirm-Unchanged :
      (preview : Option Preview) (expected : Option Text) (s : Db)
      → After (Unchanged s) (confirm_project_allocation collates true target preview expected s)
  unfolding confirm_project_allocation
  confirm-Unchanged none expected s = tt
  confirm-Unchanged (some p) expected s =
      After-raise_if (Unchanged s) (is_stale expected p.signature) _ _ s
        λ _. rows-Unchanged p.rows s
