-- ===== src/Reservation/Covered.antt =====
-- What the reservations hold beside what there is, and its creation in backend/app/service.py.
use materials_management_sha.Prelude.{
  ℕ, ◌+◌, ◌-◌, ◌≤◌, ◌≡◌, refl, ℤ, ◌&&◌, Option, some, List, [], ◌∷◌, ◌==◌, if◌then◌else◌, sum_by,
  arith, Bool-cases, inl, inr, min, sum_by-snoc,
}
use materials_management_sha.Text.{Text, text_eq}
use materials_management_sha.Database.{Db, Order, Operation}
use materials_management_sha.Database.Triples.{After}
use materials_management_sha.Database.Table.{find}
use materials_management_sha.Stock.{quantity_at, has_item, is_positive}
use materials_management_sha.Movement.{log_transaction}
use materials_management_sha.Orders.{order_key, same_id}
use materials_management_sha.Supply.{
  Available, Selected, reserves, reserved_at, awaited, incoming_reserved,
}
use materials_management_sha.Supply.Shelves.{offered}
use materials_management_sha.Supply.Lines.{drawn}
use materials_management_sha.Reservation.{is_active}
use materials_management_sha.Reservation.Create.{
  NewReservation, new_allocation, insert_allocation, allocate_stock, new_incoming, insert_incoming,
  allocate_incoming,
}

-- No location holds less than is reserved there, and no order has less than is awaited of it.
abbrev pub IsCovered : Db → Type 0
IsCovered s =
    ((i : ℕ) (l : Text) → reserved_at i l s ≤ quantity_at i l s.stock)
    × ((k : ℕ) (o : Order)
        → find order_key k s.orders ≡ some o
        → incoming_reserved k s ≤ o.order_amount)

-- What coverage reads of the database.
abbrev pub SameSupply : Db → Db → Type 0
SameSupply s t =
    (t.stock ≡ s.stock)
    × (t.allocations ≡ s.allocations)
    × (t.incoming ≡ s.incoming)
    × (t.orders ≡ s.orders)

pub log-SameSupply :
    (op : Operation) (i : ℕ) (q : ℤ) (a b note batch : Option Text) (undo_of : Option ℕ) (s : Db)
    → After (λ _ t. SameSupply s t) (log_transaction op i q a b note batch undo_of s)
unfolding log_transaction
log-SameSupply op i q a b _ _ _ s = elim (Bool-cases (is_positive q && has_item i s.items)) [
  | inl fine ↦ rw fine (refl, refl, refl, refl)
  | inr bad ↦ rw bad tt
]

module _ (payload : NewReservation) (id : ℕ) where
  insert_reserved :
      (i : ℕ) (l : Text) (a : Available) (n : ℕ) (s : Db)
      → reserved_at i l (insert_allocation payload id a n s)
        ≡ reserved_at i l s + (if payload.item_id == i && text_eq a.location l then n else 0)
  unfolding reserved_at insert_allocation new_allocation reserves is_active
  insert_reserved i l a n s =
      ground (arith, sum_by-snoc (reserves i l) s.allocations (new_allocation payload id a n s))

  insert_awaited :
      (k : ℕ) (x : Selected) (s : Db)
      → incoming_reserved k (insert_incoming payload id x s) ≡ incoming_reserved k s + drawn k x
  unfolding incoming_reserved insert_incoming new_incoming awaited is_active drawn same_id
  insert_awaited k x s =
      ground (arith, sum_by-snoc (awaited k) s.incoming (new_incoming payload id x s))

  offered_more :
      (l : Text) (a : Available) (rows : List Available) (n : ℕ)
      → (if text_eq a.location l then min a.quantity n else 0) + sum_by (offered l) rows
        ≤ sum_by (offered l) (a ∷ rows)
  unfolding sum_by offered
  offered_more l a rows n = ground arith

  -- What the loop over the stock reserves at a location.
  pub allocate_stock-reserved :
      (i : ℕ) (l : Text) (rows : List Available) (n : ℕ) (s : Db)
      → reserved_at i l (allocate_stock payload id rows n s)
        ≤ reserved_at i l s + (if payload.item_id == i then sum_by (offered l) rows else 0)
  unfolding allocate_stock
  allocate_stock-reserved i l [] n s = omega arith
  allocate_stock-reserved i l (a ∷ rows) n s = elim (Bool-cases (n == 0)) [
    | inl e ↦ rw e (omega arith)
    | inr e ↦
        let m = min a.quantity n in
        rw e (
          ground (
            arith,
            insert_reserved i l a m s,
            allocate_stock-reserved i l rows (n - m) (insert_allocation payload id a m s),
            offered_more l a rows n,
          ))
  ]

  pub allocate_stock-rest :
      (rows : List Available) (n : ℕ) (s : Db)
      → ((allocate_stock payload id rows n s).stock ≡ s.stock)
        × ((allocate_stock payload id rows n s).incoming ≡ s.incoming)
        × ((allocate_stock payload id rows n s).orders ≡ s.orders)
  unfolding allocate_stock insert_allocation
  allocate_stock-rest [] n s = (refl, refl, refl)
  allocate_stock-rest (a ∷ rows) n s = elim (Bool-cases (n == 0)) [
    | inl e ↦ rw e (refl, refl, refl)
    | inr e ↦ rw e (
        allocate_stock-rest rows (n - min a.quantity n)
          (insert_allocation payload id a (min a.quantity n) s))
  ]

  pub allocate_incoming-reserved :
      (k : ℕ) (l : List Selected) (s : Db)
      → incoming_reserved k (allocate_incoming payload id l s)
        ≡ incoming_reserved k s + sum_by (drawn k) l
  unfolding allocate_incoming sum_by
  allocate_incoming-reserved k [] s = omega arith
  allocate_incoming-reserved k (x ∷ l) s =
      omega (
        arith,
        insert_awaited k x s,
        allocate_incoming-reserved k l (insert_incoming payload id x s),
      )

  pub allocate_incoming-rest :
      (l : List Selected) (s : Db)
      → ((allocate_incoming payload id l s).stock ≡ s.stock)
        × ((allocate_incoming payload id l s).allocations ≡ s.allocations)
        × ((allocate_incoming payload id l s).orders ≡ s.orders)
  unfolding allocate_incoming insert_incoming
  allocate_incoming-rest [] s = (refl, refl, refl)
  allocate_incoming-rest (x ∷ l) s = allocate_incoming-rest l (insert_incoming payload id x s)
