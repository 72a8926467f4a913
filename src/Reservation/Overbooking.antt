-- ===== src/Reservation/Overbooking.antt =====
-- Locations and orders beside what `create_reservation` of backend/app/service.py allocates.
use materials_management_sha.Reservation.Draws.{
  Draws, preferred-drawn, shortfall-drawn, each-Draws, both-Draws,
}
use materials_management_sha.Stock.Laws.{IsLedger}
use materials_management_sha.Reservation.Holdings.{reservation_key}
use materials_management_sha.Movement.Journal.{require_positive-After, require_item-After}
use materials_management_sha.Reservation.Created.{
  project-After, preferred-After, shortfall-After, with_row,
}
use materials_management_sha.Reservation.Covered.{
  IsCovered, SameSupply, log-SameSupply, allocate_stock-reserved, allocate_stock-rest,
  allocate_incoming-reserved, allocate_incoming-rest,
}
use materials_management_sha.Prelude.{
  ℕ, ◌+◌, ◌-◌, ◌≤◌, ◌≡◌, some, List, [], ◌∷◌, ◌==◌, if◌then◌else◌, sum_by, arith, Bool-cases, inl,
  inr, Option-cases, true, Bool, false, pos, ◌++◌, sym, ==_iff, ◌<◌, ap, ◌∙◌, none,
}
use materials_management_sha.Text.{Text}
use materials_management_sha.Database.{Db, Order, Reservation, reserve}
use materials_management_sha.Database.Triples.{After, After-reader, After-continue}
use materials_management_sha.Database.Table.{find, IsKeyed}
use materials_management_sha.Stock.{quantity_at, has_item}
use materials_management_sha.Orders.{order_key}
use materials_management_sha.Supply.{
  Selected, reserves, reserved_at, awaited, incoming_reserved, order_available, available_inventory,
  available_at,
}
use materials_management_sha.Supply.Shelves.{offered, available_inventory-offered}
use materials_management_sha.Supply.Lines.{drawn}
use materials_management_sha.Reservation.{get_reservation}
use materials_management_sha.Reservation.Create.{
  NewReservation, allocate_stock, allocate_incoming, selected_quantity, stock_share,
  create_reservation, insert_reservation,
}

at_shelf :
    (collates : Text → Text → Bool) (payload : NewReservation) (i : ℕ) (m : Text) (s : Db)
    → IsLedger s.stock
    → reserved_at i m s ≤ quantity_at i m s.stock
    → (r : ℕ)
    → r
      ≤ reserved_at i m s
        + (if payload.item_id == i
            then sum_by (offered m) (available_inventory collates payload.item_id s)
            else 0)
    → r ≤ quantity_at i m s.stock
unfolding available_at
at_shelf collates payload i m s ledger h r le = elim (Bool-cases (payload.item_id == i)) [
  | inl own ↦
      let item_is : i ≡ payload.item_id = sym ((==_iff payload.item_id i).0 own) in
      ground
        (arith, le, h, item_is, available_inventory-offered payload.item_id m s collates ledger)
  | inr other ↦ ground (arith, le, h)
]

order_found :
    (k : ℕ) (rows : List Order) (o : Order) → find order_key k rows ≡ some o → o.order_id ≡ k
unfolding find
order_found k [] o e = cc
order_found k (p ∷ rows) o e = ground (arith, order_found k rows o)

at_line :
    (k : ℕ) (o : Order) (s : Db)
    → find order_key k s.orders ≡ some o
    → incoming_reserved k s ≤ o.order_amount
    → (n r : ℕ) → n ≤ order_available o s
    → r ≤ incoming_reserved k s + n
    → r ≤ o.order_amount
unfolding order_available
at_line k o s e h n r fits le = ground (arith, order_found k s.orders o e)

read-IsCovered :
    (id : ℕ) (s : Db) → IsCovered s → After (λ _ s'. IsCovered s') (get_reservation id s)
unfolding get_reservation
read-IsCovered id s h = elim (Option-cases (find reservation_key id s.reservations)) [
  | inl missing ↦ rw missing tt
  | inr (r, found) ↦ rw found h
]

-- After the row and its log row: both loops.
allocated_Covered :
    (collates : Text → Text → Bool) (payload : NewReservation) (id n : ℕ) (l : List Selected)
    (s t : Db)
    → IsLedger s.stock
    → IsCovered s
    → SameSupply s t
    → ((k : ℕ) (o : Order)
        → find order_key k s.orders ≡ some o
        → sum_by (drawn k) l ≤ order_available o s)
    → IsCovered (
        allocate_incoming payload id l
          (allocate_stock payload id (available_inventory collates payload.item_id s) n t))
unfolding reserved_at incoming_reserved available_at order_available
allocated_Covered collates payload id n l s t ledger h same fits =
    let rows = available_inventory collates payload.item_id s in
    let u = allocate_stock payload id rows n t in
    let v = allocate_incoming payload id l u in
    let stock_u = allocate_stock-rest payload id rows n t in
    let rest_v = allocate_incoming-rest payload id l u in
    (
      λ i m.
          let stock_is : v.stock ≡ s.stock = rest_v.0 ∙ (stock_u.0 ∙ same.0) in
          let start : reserved_at i m t ≡ reserved_at i m s =
            ap (λ x. sum_by (reserves i m) x) same.1 in
          let kept : reserved_at i m v ≡ reserved_at i m u =
            ap (λ x. sum_by (reserves i m) x) rest_v.1 in
          rw stock_is (
            at_shelf collates payload i m s ledger (h.0 i m) (reserved_at i m v)
              (omega (arith, kept, start, allocate_stock-reserved payload id i m rows n t))),
      λ k o e.
          let at_s : find order_key k s.orders ≡ some o =
            sym (ap (λ x. find order_key k x) (rest_v.2 ∙ (stock_u.2 ∙ same.3))) ∙ e in
          let start : incoming_reserved k u ≡ incoming_reserved k s =
            ap (λ x. sum_by (awaited k) x) (stock_u.1 ∙ same.2) in
          at_line k o s at_s (h.1 k o at_s) (sum_by (drawn k) l) (incoming_reserved k v)
            (fits k o at_s) (omega (arith, start, allocate_incoming-reserved payload id k l u)),
    )

-- From a ledger and tables that are covered, with no order key twice, a creation that returns has
-- reserved no more at any location than is there, and no more of any order than its amount: the
-- tables are covered again.
pub create_reservation-IsCovered :
    (collates : Text → Text → Bool) (payload : NewReservation) (s : Db)
    → IsLedger s.stock
    → IsKeyed order_key s.orders
    → IsCovered s
    → After (λ _ s'. IsCovered s') (create_reservation collates payload s)
unfolding create_reservation insert_reservation
create_reservation-IsCovered collates payload s ledger keyed h =
    let Q : Reservation → Db → Type 0 = λ _ s'. IsCovered s' in
    After-reader (λ n. (payload.quantity ≡ pos n) × (0 < n)) Q _ _ s
      (require_positive-After payload.quantity s)
      λ n _.
        After-reader (λ _. Unit) Q _ _ s (project-After payload.project_id s)
          λ _ _.
            After-reader (λ _. has_item payload.item_id s.items ≡ true) Q _ _ s
              (require_item-After payload.item_id s)
              λ _ _.
                After-reader (λ l. Draws payload s false l) Q _ _ s
                  (each-Draws payload s false _ _ (preferred-After payload n s)
                    λ x. preferred-drawn payload x.0 s x.1.0 n x.1.1)
                  λ preferred some_preferred.
                    let rows = available_inventory collates payload.item_id s in
                    let share = stock_share rows (n - selected_quantity preferred) in
                    After-reader (λ l. Draws payload s true l) Q _ _ s
                      (each-Draws payload s true _ _
                        (shortfall-After payload (n - selected_quantity preferred - share) s)
                        λ x.
                          shortfall-drawn payload x.0 s x.1.0
                            (n - selected_quantity preferred - share) keyed x.1.1)
                      λ more some_more.
                        After-continue (λ _ u. SameSupply s u) Q _ _
                          (log-SameSupply reserve payload.item_id (pos n) none none _ _ none
                            (with_row payload n s))
                          λ log u same. read-IsCovered s.next_reservation _ (
                            allocated_Covered collates payload s.next_reservation share
                              (preferred ++ more) s u ledger h same
                              (both-Draws payload s preferred more some_preferred some_more))
