-- ===== src/Reservation/Accepted.antt =====
-- The conditions under which `create_reservation` of backend/app/service.py returns.
use materials_management_sha.Prelude.{
  ℕ, zero, suc, ◌+◌, ◌-◌, ◌≤◌, ◌<◌, ◌≡◌, refl, ◌∙◌, ℤ, pos, true, not, Option, none, some, List, [],
  ◌∷◌, ◌==◌, arith, sum_by, min, any_of, Bool-cases, inl, inr, Bool,
}
use materials_management_sha.Text.{Text}
use materials_management_sha.Database.{Db, Reservation, reserve, LogRow}
use materials_management_sha.Database.Triples.{
  Returns, Returns-continue, Returns-raise_if, Returns-map, Returns-both,
}
use materials_management_sha.Database.Table.{find, Below}
use materials_management_sha.Database.Table.Laws.{find-above, find-snoc_new}
use materials_management_sha.Stock.{has_item, is_positive}
use materials_management_sha.Movement.{require_positive, require_item, log_transaction}
use materials_management_sha.Movement.Flows.{Logged}
use materials_management_sha.Movement.Transfer.{log_Returns}
use materials_management_sha.Orders.Frames.{log-SameHoldings}
use materials_management_sha.Supply.{
  Available, Candidate, Selected, take_candidates, available_inventory, open_supply,
  fill_from_orders, select_incoming_order_candidates,
}
use materials_management_sha.Reservation.{get_reservation}
use materials_management_sha.Reservation.Holdings.{reservation_key}
use materials_management_sha.Reservation.Drained.{SameHoldings}
use materials_management_sha.Reservation.Create.{
  NewReservation, require_project, preferred_incoming, excluded_orders, shortfall_incoming, new_row,
  insert_reservation, insert_allocation, allocate_stock, insert_incoming, allocate_incoming,
  selected_quantity, stock_share, create_reservation,
}
use materials_management_sha.Reservation.Created.{
  Created, IsSound, create_reservation-Created, with_row,
}

-- A reading that returns this value.
abbrev Reads : {A : Type 0} → A → Db → A → Db → Type 0
Reads a s a' s' = (a' ≡ a) × (s' ≡ s)

require_positive-Reads :
    (q : ℤ) (n : ℕ) (s : Db) → q ≡ pos n → 0 < n → Returns (Reads n s) (require_positive q s)
unfolding require_positive is_positive
require_positive-Reads q zero s e p = absurd (omega (arith, p))
require_positive-Reads q (suc n) s e p = rw e (refl, refl)

require_item-Reads :
    (i : ℕ) (s : Db) → has_item i s.items ≡ true → Returns (λ _ s'. s' ≡ s) (require_item i s)
unfolding require_item
require_item-Reads i s known = rw known refl

require_project-Reads :
    (p : Option ℕ) (s : Db)
    → ((k : ℕ) → p ≡ some k → any_of (λ i. i == k) s.projects ≡ true)
    → Returns (λ _ s'. s' ≡ s) (require_project p s)
unfolding require_project
require_project-Reads none s known = refl
require_project-Reads (some k) s known = rw (known k refl) refl

take_candidates-left :
    (deadline : Option ℕ) (l : List Candidate) (n : ℕ)
    → (take_candidates deadline l n).1 ≡ n - sum_by (λ c. c.available_quantity) l
unfolding take_candidates sum_by
take_candidates-left deadline [] n = omega arith
take_candidates-left deadline (c ∷ l) n =
    ground (arith, take_candidates-left deadline l (n - min c.available_quantity n))

-- What the open orders can supply to a reservation without a preferred order.
abbrev pub supply_of : NewReservation → Db → ℕ
supply_of payload s =
    sum_by (λ c. c.available_quantity) (open_supply payload.item_id payload.project_id [] s)

abbrev pub shelves_of : (Text → Text → Bool) → NewReservation → Db → ℕ
shelves_of collates payload s =
    sum_by (λ a. a.quantity) (available_inventory collates payload.item_id s)

shortfall-Reads :
    (payload : NewReservation) (n : ℕ) (s : Db)
    → payload.preferred_order_id ≡ none
    → n ≤ supply_of payload s
    → Returns (λ _ s'. s' ≡ s) (shortfall_incoming payload n s)
unfolding shortfall_incoming select_incoming_order_candidates fill_from_orders excluded_orders
shortfall-Reads payload n s free enough = elim (Bool-cases (n == 0)) [
  | inl e ↦ rw e refl
  | inr e ↦
      let l = open_supply payload.item_id payload.project_id [] s in
      rw (e, free)
        (Returns-raise_if (λ _ s'. s' ≡ s) (not ((take_candidates payload.deadline l n).1 == 0)) _ _
          s (ground (arith, take_candidates-left payload.deadline l n, enough)) refl)
]

module _ (payload : NewReservation) (id : ℕ) where
  allocate_stock-reservations :
      (rows : List Available) (n : ℕ) (s : Db)
      → (allocate_stock payload id rows n s).reservations ≡ s.reservations
  unfolding allocate_stock insert_allocation
  allocate_stock-reservations [] n s = refl
  allocate_stock-reservations (a ∷ rows) n s = elim (Bool-cases (n == 0)) [
    | inl e ↦ rw e refl
    | inr e ↦ rw e (
        allocate_stock-reservations rows (n - min a.quantity n)
          (insert_allocation payload id a (min a.quantity n) s))
  ]

  allocate_incoming-reservations :
      (l : List Selected) (s : Db)
      → (allocate_incoming payload id l s).reservations ≡ s.reservations
  unfolding allocate_incoming insert_incoming
  allocate_incoming-reservations [] s = refl
  allocate_incoming-reservations (x ∷ l) s =
      allocate_incoming-reservations l (insert_incoming payload id x s)

read-Returns :
    (rid : ℕ) (r : Reservation) (s : Db)
    → find reservation_key rid s.reservations ≡ some r
    → Returns (λ _ _. Unit {0}) (get_reservation rid s)
unfolding get_reservation
read-Returns rid r s found = rw found tt

row_read :
    (payload : NewReservation) (n m : ℕ) (rows : List Available) (l : List Selected) (s u : Db)
    → Below reservation_key s.next_reservation s.reservations
    → SameHoldings (with_row payload n s) u
    → Returns
        (λ _ _. Unit {0})
        (get_reservation s.next_reservation (
          allocate_incoming payload s.next_reservation l
            (allocate_stock payload s.next_reservation rows m u)))
unfolding new_row
row_read payload n m rows l s u below same =
    let id = s.next_reservation in
    let v = allocate_stock payload id rows m u in
    read-Returns id (new_row payload n id) (allocate_incoming payload id l v) (
      rw
        (allocate_incoming-reservations payload id l v
          ∙ (allocate_stock-reservations payload id rows m u ∙ same.4))
        (find-snoc_new reservation_key s.reservations (new_row payload n id)
          (find-above reservation_key id id s.reservations below (omega arith))))

preferred-Reads :
    (payload : NewReservation) (n : ℕ) (s : Db)
    → payload.preferred_order_id ≡ none
    → Returns (Reads [] s) (preferred_incoming payload n s)
unfolding preferred_incoming
preferred-Reads payload n s free = rw free (refl, refl)

-- The log row of a creation changes no table of reservations.
abbrev Written : NewReservation → ℕ → Db → LogRow → Db → Type 0
Written payload n s row u = SameHoldings (with_row payload n s) u

log-Written :
    (payload : NewReservation) (n : ℕ) (text batch : Option Text) (s : Db)
    → 0 < n
    → has_item payload.item_id s.items ≡ true
    → Returns (Written payload n s) (
        log_transaction reserve payload.item_id
          (pos n)
          none
          none
          text
          batch
          none
          (with_row payload n s))
log-Written payload n _ _ s p known =
    let t = with_row payload n s in
    let logged : LogRow → Db → Type 0 =
      λ row u. Logged reserve payload.item_id n none none t row u in
    Returns-map (λ row u. logged row u × SameHoldings t u) (Written payload n s) _
      (Returns-both logged (λ _ u. SameHoldings t u) _
        (log_Returns reserve payload.item_id n none none _ _ none t p known)
        (log-SameHoldings reserve payload.item_id (pos n) none none _ _ none t))
      λ row u both. both.1

creation-Returns :
    (collates : Text → Text → Bool) (payload : NewReservation) (n : ℕ) (s : Db)
    → Below reservation_key s.next_reservation s.reservations
    → payload.quantity ≡ pos n
    → 0 < n
    → has_item payload.item_id s.items ≡ true
    → ((k : ℕ) → payload.project_id ≡ some k → any_of (λ i. i == k) s.projects ≡ true)
    → payload.preferred_order_id ≡ none
    → n ≤ shelves_of collates payload s + supply_of payload s
    → Returns (λ _ _. Unit {0}) (create_reservation collates payload s)
unfolding create_reservation insert_reservation selected_quantity stock_share sum_by
creation-Returns collates payload n s below asked p known project free enough =
    let Q : Reservation → Db → Type 0 = λ _ _. Unit in
    Returns-continue (Reads n s) Q _ _ (require_positive-Reads payload.quantity n s asked p)
      λ k _ is.
        rw (is.0, is.1)
          (Returns-continue (λ _ s'. s' ≡ s) Q _ _
            (require_project-Reads payload.project_id s project)
            λ _ _ same. rw same (
              Returns-continue (λ _ s'. s' ≡ s) Q _ _ (require_item-Reads payload.item_id s known)
                λ _ _ same'. rw same' (
                  Returns-continue (Reads [] s) Q _ _ (preferred-Reads payload n s free)
                    λ preferred _ nothing.
                      rw (nothing.0, nothing.1)
                        (let rest = n - 0 - min (shelves_of collates payload s) (n - 0) in
                          Returns-continue (λ _ s'. s' ≡ s) Q _ _
                            (shortfall-Reads payload rest s free (omega (arith, enough)))
                            λ more _ same''. rw same'' (
                              Returns-continue (Written payload n s) Q _ _
                                (log-Written payload n _ _ s p known)
                                λ row u logged. row_read payload n _ _ _ s u below logged)))))

-- From a sound database, a request without a preferred order for a positive quantity of a known item,
-- for no project or a known one, is accepted whenever the stock that is available and the open orders
-- with a date that may supply it cover the quantity together: the creation returns, with the effect of
-- a creation, and the database is sound again.
pub create_reservation-Returns :
    (collates : Text → Text → Bool) (payload : NewReservation) (n : ℕ) (s : Db)
    → IsSound s
    → payload.quantity ≡ pos n
    → 0 < n
    → has_item payload.item_id s.items ≡ true
    → ((k : ℕ) → payload.project_id ≡ some k → any_of (λ i. i == k) s.projects ≡ true)
    → payload.preferred_order_id ≡ none
    → n ≤ shelves_of collates payload s + supply_of payload s
    → Returns
        (λ r' s'. Created payload s r' s' × IsSound s')
        (create_reservation collates payload s)
create_reservation-Returns collates payload n s h asked p known project free enough =
    Returns-map (λ r' s'. Unit {0} × (Created payload s r' s' × IsSound s'))
      (λ r' s'. Created payload s r' s' × IsSound s') _
      (Returns-both (λ _ _. Unit {0}) (λ r' s'. Created payload s r' s' × IsSound s') _
        (creation-Returns collates payload n s h.1 asked p known project free enough)
        (create_reservation-Created collates payload s h))
      λ r' s' both. both.1
