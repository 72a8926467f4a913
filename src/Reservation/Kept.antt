-- ===== src/Reservation/Kept.antt =====
-- What `create_reservation` of backend/app/service.py leaves alone: the orders and the stock.
use materials_management_sha.Prelude.{
  ℕ, ◌-◌, ◌≡◌, refl, ◌∙◌, pos, min, Bool, true, ◌&&◌, Option, none, some, List, [], ◌∷◌, ◌++◌, ◌==◌,
  Bool-cases, inl, inr, ◌<◌, ◌≤◌,
}
use materials_management_sha.Text.{Text}
use materials_management_sha.Database.{Db, reserve, Reservation, LogRow}
use materials_management_sha.Database.Triples.{After, After-reader, After-continue, After-map}
use materials_management_sha.Stock.{has_item, is_positive}
use materials_management_sha.Movement.{log_transaction}
use materials_management_sha.Movement.Journal.{require_positive-After, require_item-After}
use materials_management_sha.Supply.{Available, available_inventory, Selected}
use materials_management_sha.Reservation.{get_reservation}
use materials_management_sha.Reservation.Release.{get_reservation-After}
use materials_management_sha.Reservation.Holdings.{reservation_key}
use materials_management_sha.Database.Table.{find}
use materials_management_sha.Reservation.Create.{
  NewReservation, allocate_stock, allocate_incoming, insert_allocation, insert_incoming,
  insert_reservation, create_reservation, selected_quantity, stock_share,
}
use materials_management_sha.Reservation.Created.{
  preferred-After, shortfall-After, project-After, with_row,
}

-- The orders, their next key and the stock are as they were.
abbrev pub SameOrders : Db → Db → Type 0
SameOrders s t = (t.orders ≡ s.orders) × (t.next_order ≡ s.next_order) × (t.stock ≡ s.stock)

-- And the log.
abbrev Still : Db → Db → Type 0
Still s t = SameOrders s t × (t.log ≡ s.log)

Still-trans : (s t u : Db) → Still s t → Still t u → Still s u
Still-trans s t u h k = ((k.0.0 ∙ h.0.0, k.0.1 ∙ h.0.1, k.0.2 ∙ h.0.2), k.1 ∙ h.1)

-- One RESERVE row of `n` units of the item stands last in the log, with the time of the call.
abbrev pub LogsReserve : ℕ → ℕ → Db → Db → Type 0
LogsReserve i n s t =
    (row : LogRow) × (t.log ≡ s.log ++ row ∷ [])
    × (row.operation_type ≡ reserve)
    × (row.item_id ≡ i)
    × (row.quantity ≡ n)
    × (row.timestamp ≡ s.now)
    × (row.log_id ≡ s.next_log)

log-Reserves :
    (i n : ℕ) (a b note batch : Option Text) (undo_of : Option ℕ) (s : Db)
    → After
        (λ _ t. SameOrders s t × LogsReserve i n s t)
        (log_transaction reserve i (pos n) a b note batch undo_of s)
unfolding log_transaction
log-Reserves i n a b _ _ _ s = elim (Bool-cases (is_positive (pos n) && has_item i s.items)) [
  | inl fine ↦ rw fine ((refl, refl, refl), (_, refl, refl, refl, refl, refl, refl))
  | inr bad ↦ rw bad tt
]

stock-Still :
    (payload : NewReservation) (id : ℕ) (l : List Available) (n : ℕ) (s : Db)
    → Still s (allocate_stock payload id l n s)
unfolding allocate_stock insert_allocation
stock-Still payload id [] n s = ((refl, refl, refl), refl)
stock-Still payload id (a ∷ l) n s = elim (Bool-cases (n == 0)) [
  | inl e ↦ rw e ((refl, refl, refl), refl)
  | inr e ↦ rw e (
      stock-Still payload id l (n - min a.quantity n)
        (insert_allocation payload id a (min a.quantity n) s))
]

incoming-Still :
    (payload : NewReservation) (id : ℕ) (l : List Selected) (s : Db)
    → Still s (allocate_incoming payload id l s)
unfolding allocate_incoming insert_incoming
incoming-Still payload id [] s = ((refl, refl, refl), refl)
incoming-Still payload id (x ∷ l) s = incoming-Still payload id l (insert_incoming payload id x s)

read-Still : (id : ℕ) (s : Db) → After (λ _ t. Still s t) (get_reservation id s)
unfolding get_reservation
read-Still id s =
    After-map (λ r t. (t ≡ s) × (find reservation_key id s.reservations ≡ some r))
      (λ _ t. Still s t) _ (get_reservation-After id s) λ r t h. rw h.0 ((refl, refl, refl), refl)

-- What a creation leaves alone, and what it logs.
abbrev pub Booked : NewReservation → Db → Db → Type 0
Booked payload s t =
    SameOrders s t × ((n : ℕ) × (payload.quantity ≡ pos n) × LogsReserve payload.item_id n s t)

Booked-Still :
    (payload : NewReservation) (s t u : Db) → Booked payload s t → Still t u → Booked payload s u
Booked-Still payload s t u ((o, x, k), (n, q, (row, logged, op, item, amount, at, key))) h =
    ((h.0.0 ∙ o, h.0.1 ∙ x, h.0.2 ∙ k), (n, q, (row, h.1 ∙ logged, op, item, amount, at, key)))

-- A creation that returns leaves the orders and the stock as they were, and logs one RESERVE row.
pub create_reservation-Booked :
    (collates : Text → Text → Bool) (payload : NewReservation) (s : Db)
    → After (λ _ t. Booked payload s t) (create_reservation collates payload s)
unfolding create_reservation insert_reservation
create_reservation-Booked collates payload s =
    let Q : Reservation → Db → Type 0 = λ _ t. Booked payload s t in
    After-reader (λ n. (payload.quantity ≡ pos n) × (0 < n)) Q _ _ s
      (require_positive-After payload.quantity s)
      λ n asked.
        After-reader (λ _. Unit) Q _ _ s (project-After payload.project_id s)
          λ _ _.
            After-reader (λ _. has_item payload.item_id s.items ≡ true) Q _ _ s
              (require_item-After payload.item_id s)
              λ _ _.
                After-reader (λ l. selected_quantity l ≤ n) Q _ _ s (preferred-After payload n s)
                  λ preferred _.
                    let rows = available_inventory collates payload.item_id s in
                    let wanted = n - selected_quantity preferred in
                    let left = wanted - stock_share rows wanted in
                    After-reader (λ l. selected_quantity l ≡ left) Q _ _ s
                      (shortfall-After payload left s)
                      λ more _.
                        After-continue
                          (λ _ t.
                            SameOrders (with_row payload n s) t
                            × LogsReserve payload.item_id n (with_row payload n s) t)
                          Q _ _
                          (log-Reserves payload.item_id n none none _ _ none (with_row payload n s))
                          λ _ t logged.
                            let id = s.next_reservation in
                            let u = allocate_stock payload id rows (stock_share rows wanted) t in
                            let v = allocate_incoming payload id (preferred ++ more) u in
                            After-map (λ _ w. Still v w) Q _ (read-Still id v)
                              λ r w last.
                                Booked-Still payload s t w (logged.0, (n, asked.0, logged.1))
                                  (Still-trans t v w
                                    (Still-trans t u v
                                      (stock-Still payload id rows (stock_share rows wanted) t)
                                      (incoming-Still payload id (preferred ++ more) u))
                                    last)

-- A creation that returns leaves the orders and the stock as they were.
pub create_reservation-SameOrders :
    (collates : Text → Text → Bool) (payload : NewReservation) (s : Db)
    → After (λ _ t. SameOrders s t) (create_reservation collates payload s)
create_reservation-SameOrders collates payload s =
    After-map (λ _ t. Booked payload s t) (λ _ t. SameOrders s t) _
      (create_reservation-Booked collates payload s) λ _ t h. h.0
