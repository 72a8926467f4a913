-- ===== src/Undo/Books.antt =====
-- The parts of an undo that change neither the stock nor the log.
use materials_management_sha.Prelude.{
  ℕ, ◌-◌, ◌*◌, ◌%◌, ◌≡◌, refl, ◌∙◌, min, false, not, Option, none, some, List, [], ◌∷◌, ◌==◌, keep,
  Bool-cases, Option-cases, inl, inr,
}
use materials_management_sha.Database.{Db, Order, Allocation, Incoming, LogRow}
use materials_management_sha.Database.Triples.{After, After-continue, After-reader, After-raise_if}
use materials_management_sha.Notes.{or_empty}
use materials_management_sha.Orders.{
  record_order_lineage_event, is_arrived, original_quantity, order_key,
}
use materials_management_sha.Orders.Arrival.{record_local_order_split, insert_remaining}
use materials_management_sha.Orders.Merge.{get_order-After}
use materials_management_sha.Database.Table.{find}
use materials_management_sha.Restore.{first}
use materials_management_sha.Undo.Context.{find_order}
use materials_management_sha.Undo.Arrival.{
  update_order, restore_part, restore_amount, restore_order, restore_open_order, or_order, joins,
  give_up_stock, leave_converted, grow_incoming, revive_incoming, restore_incoming, unconvert,
  stock_made_by, unconvert_rows, restore_named_order, undo_arrival_conversions, converted_by,
  unconvert_step, restore_found_order,
}

abbrev pub SameBooks : Db → Db → Type 0
SameBooks s s' = (s'.stock ≡ s.stock) × (s'.log ≡ s.log)

pub SameBooks-trans : (s t u : Db) → SameBooks s t → SameBooks t u → SameBooks s u
SameBooks-trans s t u h k = (k.0 ∙ h.0, k.1 ∙ h.1)

give_up-SameBooks : (x : Allocation) (n : ℕ) (s : Db) → SameBooks s (give_up_stock x n s)
unfolding give_up_stock
give_up-SameBooks x n s = elim (Bool-cases (x.quantity - n == 0)) [
  | inl e ↦ rw e (refl, refl)
  | inr e ↦ rw e (refl, refl)
]

leave-SameBooks : (a : Incoming) (n : ℕ) (s : Db) → SameBooks s (leave_converted a n s)
unfolding leave_converted
leave-SameBooks a n s = elim (Bool-cases (a.quantity - n == 0)) [
  | inl e ↦ rw e (refl, refl)
  | inr e ↦ rw e (refl, refl)
]

revive-SameBooks :
    (a : Incoming) (n : ℕ) (order : Option ℕ) (s : Db) → SameBooks s (revive_incoming a n order s)
unfolding revive_incoming
revive-SameBooks a n order s = elim (Bool-cases (a.quantity - n == 0)) [
  | inl e ↦ rw e (refl, refl)
  | inr e ↦ rw e (refl, refl)
]

restore-SameBooks :
    (a : Incoming) (n : ℕ) (order : Option ℕ) (b : Option Incoming) (s : Db)
    → SameBooks s (restore_incoming a n order b s)
unfolding restore_incoming grow_incoming
restore-SameBooks a n order none s = revive-SameBooks a n order s
restore-SameBooks a n order (some b) s = leave-SameBooks a n (grow_incoming a b n order s)

unconvert-SameBooks :
    (order : Option ℕ) (a : Incoming) (x : Allocation) (n : ℕ) (s : Db)
    → SameBooks s (unconvert order a x n s)
unfolding unconvert
unconvert-SameBooks order a x n s =
    let t = give_up_stock x n s in
    let target = or_order order a.order_id in
    let found = first (joins a.reservation_id target) t.incoming in
    SameBooks-trans s t (restore_incoming a n target found t) (give_up-SameBooks x n s)
      (restore-SameBooks a n target found t)

step-SameBooks :
    (order : Option ℕ) (a : Incoming) (x : Option Allocation) (n : ℕ) (s : Db)
    → SameBooks s (unconvert_step order a x n s).1
unfolding unconvert_step
step-SameBooks order a none n s = (refl, refl)
step-SameBooks order a (some x) n s = elim (Bool-cases (min (min n a.quantity) x.quantity == 0)) [
  | inl z ↦ rw z (refl, refl)
  | inr z ↦ rw z (unconvert-SameBooks order a x (min (min n a.quantity) x.quantity) s)
]

unconvert_rows-SameBooks :
    (order : Option ℕ) (l : List Incoming) (n : ℕ) (s : Db)
    → SameBooks s (unconvert_rows order l n s)
unfolding unconvert_rows
unconvert_rows-SameBooks order [] n s = (refl, refl)
unconvert_rows-SameBooks order (a ∷ l) n s = elim (Bool-cases (n == 0)) [
  | inl e ↦ rw e (refl, refl)
  | inr e ↦
      let t = unconvert_step order a (stock_made_by a s) n s in
      rw e (
        SameBooks-trans s t.1 (unconvert_rows order l t.0 t.1)
          (step-SameBooks order a (stock_made_by a s) n s)
          (unconvert_rows-SameBooks order l t.0 t.1))
]

restore_part-SameBooks :
    (id root : ℕ) (o : Order) (amount quantity : ℕ) (p : Option Order) (s : Db)
    → After (λ _ t. SameBooks s t) (restore_part id root o amount quantity p s)
unfolding restore_part insert_remaining record_order_lineage_event record_local_order_split
    update_order
restore_part-SameBooks id root o amount quantity none s = (refl, refl)
restore_part-SameBooks id root o amount quantity (some p) s = (refl, refl)

restore_amount-SameBooks :
    (id : ℕ) (o : Order) (root amount quantity : ℕ) (s : Db)
    → After (λ _ t. SameBooks s t) (restore_amount id o root amount quantity s)
unfolding restore_amount update_order
restore_amount-SameBooks id o root amount quantity s =
    elim (Bool-cases (amount == o.order_amount)) [
      | inl e ↦ rw e (refl, refl)
      | inr e ↦ rw e (restore_part-SameBooks id root o amount quantity _ _)
    ]

restore_order-SameBooks :
    (id : ℕ) (o : Order) (amount : ℕ) (s : Db)
    → After (λ _ t. SameBooks s t) (restore_order id o amount s)
unfolding restore_order
restore_order-SameBooks id o amount s =
    After-raise_if (λ _ t. SameBooks s t) (not (original_quantity o * amount % o.order_amount == 0))
      _ _ s λ _. restore_amount-SameBooks id o _ amount _ s

restore_open-SameBooks :
    (id n : ℕ) (s : Db) → After (λ _ t. SameBooks s t) (restore_open_order id n s)
unfolding restore_open_order
restore_open-SameBooks id n s = elim (Bool-cases (n == 0)) [
  | inl e ↦ rw e (refl, refl)
  | inr e ↦ rw e (
      After-reader (λ o. find order_key id s.orders ≡ some o) (λ _ t. SameBooks s t) _ _ s
        (get_order-After id s)
        λ o _. elim (Bool-cases (is_arrived o.status)) [
          | inl live ↦ rw live (
              After-continue (λ _ t. SameBooks s t) (λ _ t. SameBooks s t) _ _
                (restore_order-SameBooks id o (min n o.order_amount) s) λ x t h. h)
          | inr live ↦ rw live (refl, refl)
        ])
]

restore_found-SameBooks :
    (id : Option ℕ) (n : ℕ) (s : Db) → After (λ _ t. SameBooks s t) (restore_found_order id n s)
unfolding restore_found_order
restore_found-SameBooks none n s = (refl, refl)
restore_found-SameBooks (some id) n s = restore_open-SameBooks id n s

pub conversions-SameBooks :
    (log_id n : ℕ) (s : Db) → After (λ _ t. SameBooks s t) (undo_arrival_conversions log_id n s)
unfolding undo_arrival_conversions restore_named_order
conversions-SameBooks log_id n s = elim (Bool-cases (n == 0)) [
  | inl e ↦ rw e (refl, refl)
  | inr e ↦ rw e (elim (Option-cases (find (λ (r : LogRow). r.log_id) log_id s.log)) [
    | inl missing ↦ rw missing tt
    | inr (log, found) ↦ rw found (
        After-continue (λ _ t. SameBooks s t) (λ _ t. SameBooks s t) _ _
          (restore_found-SameBooks (find_order false (or_empty log.note)) n s)
          λ order t first.
            SameBooks-trans s t (unconvert_rows order (keep (converted_by log_id) t.incoming) n t)
              first (unconvert_rows-SameBooks order (keep (converted_by log_id) t.incoming) n t))
  ])
]
