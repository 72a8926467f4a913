-- ===== src/Reservation/Created.antt =====
-- `create_reservation` of backend/app/service.py, where it returns.
use materials_management_sha.Stock.{has_item}
use mathlib.Core.Path.{subst}
use materials_management_sha.Reservation.Release.{Tables-same, held_same}
use materials_management_sha.Reservation.Settled.{some_inj}
use materials_management_sha.Orders.{order_key, is_arrived, same_id}
use materials_management_sha.Prelude.{
  ℕ, ◌+◌, ◌-◌, ◌≤◌, ◌<◌, ◌≡◌, ◌≢◌, refl, ◌∙◌, sym, ap, min, pos, Bool, true, false, not, ◌&&◌, ◌||◌,
  Option, none, some, List, [], ◌∷◌, ◌++◌, arith, ◌==◌, sum_by, sum_by-append, Bool-cases,
  Option-cases, inl, inr, ==_iff,
}
use materials_management_sha.Text.{Text}
use materials_management_sha.Database.{Db, Reservation, reserve}
use materials_management_sha.Database.Triples.{After, After-continue, After-reader, After-raise_if}
use materials_management_sha.Database.Table.{find, Below}
use materials_management_sha.Database.Table.Laws.{
  find-above, Below-mono, Below-snoc, IsKeyed-snoc, find-snoc_new, find-snoc_ne,
}
use materials_management_sha.Movement.Journal.{require_positive-After, require_item-After}
use materials_management_sha.Orders.Frames.{log-SameHoldings}
use materials_management_sha.Orders.Merge.{get_order-After}
use materials_management_sha.Supply.{
  Selected, Candidate, take_candidates, select_preferred, fill_from_orders,
  select_incoming_order_candidates, open_supply, available_inventory, order_available, Available,
}
use materials_management_sha.Reservation.{is_active, get_reservation}
use materials_management_sha.Reservation.Holdings.{
  held, backed, reservation_key, Tables, IsConsistent,
}
use materials_management_sha.Reservation.Drained.{SameHoldings}
use materials_management_sha.Reservation.Create.{
  NewReservation, require_project, preferred_incoming, excluded_orders, shortfall_incoming, new_row,
  insert_reservation, allocate_stock, allocate_incoming, selected_quantity, stock_share,
  create_reservation,
}
use materials_management_sha.Reservation.Adds.{
  Adds-trans, allocate_stock-Adds, allocate_incoming-Adds,
}

-- Consistent, with keys below the identity column's next value, and nothing held for a reservation
-- that is not there.
abbrev pub IsSound : Db → Type 0
IsSound s =
    IsConsistent s
    × Below reservation_key s.next_reservation s.reservations
    × ((k : ℕ) → find reservation_key k s.reservations ≡ none → held k s ≡ 0)

take_candidates-sum :
    (deadline : Option ℕ) (l : List Candidate) (n : ℕ)
    → selected_quantity (take_candidates deadline l n).0 + (take_candidates deadline l n).1 ≡ n
unfolding take_candidates selected_quantity sum_by
take_candidates-sum deadline [] n = omega arith
take_candidates-sum deadline (c ∷ l) n =
    ground (arith, take_candidates-sum deadline l (n - min c.available_quantity n))

select_preferred-After :
    (item n : ℕ) (project : Option ℕ) (p : ℕ) (deadline : Option ℕ) (s : Db)
    → After (λ x s'. (s' ≡ s) × (x.quantity ≤ n)) (select_preferred item n project p deadline s)
unfolding select_preferred
select_preferred-After item n project p deadline s =
    let Q : Selected → Db → Type 0 = λ x s'. (s' ≡ s) × (x.quantity ≤ n) in
    After-reader (λ o. find order_key p s.orders ≡ some o) Q _ _ s (get_order-After p s)
      λ o _. After-raise_if Q (not (o.item_id == item)) _ _ s λ _.
        After-raise_if Q (is_arrived o.status) _ _ s λ _.
          After-raise_if Q (not (same_id o.project_id none) && not (same_id o.project_id project)) _
            _ s λ _. After-raise_if Q (order_available o s == 0) _ _ s λ _. (refl, omega arith)

fill-After :
    (item n : ℕ) (project deadline : Option ℕ) (excluded : List ℕ) (s : Db)
    → After
        (λ l s'. (s' ≡ s) × (selected_quantity l ≡ n))
        (fill_from_orders item n project deadline excluded s)
unfolding fill_from_orders
fill-After item n project deadline excluded s =
    After-raise_if (λ l s'. (s' ≡ s) × (selected_quantity l ≡ n))
      (not ((take_candidates deadline (open_supply item project excluded s) n).1 == 0)) _ _ s
      λ found.
        (refl, ground (arith, take_candidates-sum deadline (open_supply item project excluded s) n))

or_true : (b : Bool) → (b || true) ≡ true
or_true b = ground arith

pub preferred-After :
    (payload : NewReservation) (n : ℕ) (s : Db)
    → After (λ l s'. (s' ≡ s) × (selected_quantity l ≤ n)) (preferred_incoming payload n s)
unfolding preferred_incoming select_incoming_order_candidates selected_quantity sum_by
preferred-After payload n s = elim (Option-cases payload.preferred_order_id) [
  | inl none_given ↦ rw none_given (refl, omega arith)
  | inr (p, given) ↦ rw given (
      After-reader (λ x. x.quantity ≤ n) (λ l s'. (s' ≡ s) × (selected_quantity l ≤ n)) _ _ s
        (select_preferred-After payload.item_id n payload.project_id p payload.deadline s)
        λ x le. rw (or_true (n - x.quantity == 0)) (refl, omega (arith, le)))
]

pub shortfall-After :
    (payload : NewReservation) (n : ℕ) (s : Db)
    → After (λ l s'. (s' ≡ s) × (selected_quantity l ≡ n)) (shortfall_incoming payload n s)
unfolding shortfall_incoming select_incoming_order_candidates selected_quantity sum_by
shortfall-After payload n s = elim (Bool-cases (n == 0)) [
  | inl e ↦ rw e (refl, ground arith)
  | inr e ↦ rw e (
      fill-After payload.item_id n payload.project_id payload.deadline
        (excluded_orders payload.preferred_order_id) s)
]

pub project-After :
    (p : Option ℕ) (s : Db) → After (λ _ s'. (s' ≡ s) × Unit {0}) (require_project p s)
unfolding require_project
project-After p s = ground arith

-- The database with the new row.
abbrev pub with_row : NewReservation → ℕ → Db → Db
with_row payload n s = record s {
  reservations = s.reservations ++ new_row payload n s.next_reservation ∷ [];
  next_reservation = s.next_reservation + 1;
}

-- The row that is inserted, and what is found and held before anything is allocated.
inserted :
    (payload : NewReservation) (n : ℕ) (s t : Db)
    → IsSound s
    → t ≡ with_row payload n s
    → Tables t × (held s.next_reservation t ≡ 0)
unfolding held new_row
inserted payload n s t h e =
    let fresh =
      find-above reservation_key s.next_reservation s.next_reservation s.reservations h.1
        (omega arith) in
    rw e (
      (
        h.0.0.0,
        h.0.0.1,
        IsKeyed-snoc reservation_key s.reservations (new_row payload n s.next_reservation) h.0.0.2
            fresh,
      ),
      h.2 s.next_reservation fresh,
    )

-- The new reservation `r'` has the next key and the quantity that was asked for, all of which is held
-- for it; what is held for the others, the other reservations and the stock are as they were.
abbrev pub Created : NewReservation → Db → Reservation → Db → Type 0
Created payload s r' s' =
    (n : ℕ) × (payload.quantity ≡ pos n)
    × (0 < n)
    × (r' ≡ new_row payload n s.next_reservation)
    × (find reservation_key s.next_reservation s'.reservations ≡ some r')
    × (held s.next_reservation s' ≡ n)
    × ((k : ℕ) → k ≢ s.next_reservation → held k s' ≡ held k s)
    × ((k : ℕ)
        → k ≢ s.next_reservation
        → find reservation_key k s'.reservations ≡ find reservation_key k s.reservations)
    × (s'.stock ≡ s.stock)

unequal : (a b : ℕ) → (a == b) ≡ false → a ≡ b → ⊥
unequal a b h p = ground arith

absent_some : {r : Reservation} → none ≡ some r → ⊥
absent_some h = cc

row_backed : (payload : NewReservation) (n id : ℕ) → backed (new_row payload n id) ≡ n
unfolding backed new_row is_active
row_backed payload n id = refl

row-key : (payload : NewReservation) (n id : ℕ) → reservation_key (new_row payload n id) ≡ id
unfolding new_row
row-key payload n id = refl

Created-IsSound :
    (payload : NewReservation) (s s' : Db) (r' : Reservation)
    → IsSound s
    → Tables s'
    → Below reservation_key s'.next_reservation s'.reservations
    → Created payload s r' s'
    → IsSound s'
Created-IsSound payload s s' r' h tables below
      (n, asked, positive, row, read, own, others, found, stock) =
    (
      (
        tables,
        λ k x e. elim (Bool-cases (k == s.next_reservation)) [
          | inl same ↦
              let e_id = (==_iff k s.next_reservation).0 same in
              let at_id = subst (λ i. find reservation_key i s'.reservations ≡ some x) e_id e in
              let x_is : x ≡ new_row payload n s.next_reservation =
                some_inj (sym at_id ∙ read) ∙ row in
              rw (e_id, x_is) (own ∙ sym (row_backed payload n s.next_reservation))
          | inr other ↦
              let ne : k ≢ s.next_reservation =
                λ p. absurd (unequal k s.next_reservation other p) in
              others k ne ∙ h.0.1 k x (sym (found k ne) ∙ e)
        ],
      ),
      below,
      λ k e. elim (Bool-cases (k == s.next_reservation)) [
        | inl same ↦
            let at_id =
              subst (λ i. find reservation_key i s'.reservations ≡ none)
                ((==_iff k s.next_reservation).0 same) e in
            absurd (absent_some (sym at_id ∙ read))
        | inr other ↦
            let ne : k ≢ s.next_reservation = λ p. absurd (unequal k s.next_reservation other p) in
            others k ne ∙ h.2 k (sym (found k ne) ∙ e)
      ],
    )

start_held :
    (k : ℕ) (payload : NewReservation) (n : ℕ) (s t : Db)
    → t ≡ with_row payload n s
    → held k t ≡ held k s
unfolding held
start_held k payload n s t e = rw e refl

-- After the row and its log row: both loops, and the reading of the new reservation.
allocated :
    (payload : NewReservation) (n m : ℕ) (rows : List Available) (l : List Selected) (s t u : Db)
    → IsSound s
    → payload.quantity ≡ pos n
    → 0 < n
    → t ≡ with_row payload n s
    → SameHoldings t u
    → m ≤ sum_by (λ a. a.quantity) rows
    → m + selected_quantity l ≡ n
    → After
        (λ r' s'. Created payload s r' s' × IsSound s')
        (get_reservation s.next_reservation (
          allocate_incoming payload s.next_reservation l
            (allocate_stock payload s.next_reservation rows m u)))
unfolding get_reservation new_row
allocated payload n m rows l s t u h asked positive t_is same le covers =
    let id = s.next_reservation in
    let row = new_row payload n id in
    let fresh = find-above reservation_key id id s.reservations h.1 (omega arith) in
    let start = inserted payload n s t h t_is in
    let tables_u = Tables-same t u same start.0 in
    let first = allocate_stock-Adds payload id rows m u tables_u le in
    let v = allocate_stock payload id rows m u in
    let second = allocate_incoming-Adds payload id l v first.0 in
    let w = allocate_incoming payload id l v in
    let all = Adds-trans id m (selected_quantity l) u v w first second in
    let rows_w : w.reservations ≡ s.reservations ++ row ∷ [] =
      all.3 ∙ (same.4 ∙ ap (λ (x : Db). x.reservations) t_is) in
    let next_w : w.next_reservation ≡ id + 1 =
      all.4 ∙ (same.6 ∙ ap (λ (x : Db). x.next_reservation) t_is) in
    let read : find reservation_key id w.reservations ≡ some row =
      rw rows_w (find-snoc_new reservation_key s.reservations row fresh) in
    let done : Created payload s row w = (
      n,
      asked,
      positive,
      refl,
      read,
      omega (arith, all.1, held_same id t u same, start.1, covers),
      λ k ne. all.2 k ne ∙ (held_same k t u same ∙ start_held k payload n s t t_is),
      λ k ne. rw rows_w (find-snoc_ne reservation_key k s.reservations row ne),
      all.5 ∙ (same.5 ∙ ap (λ (x : Db). x.stock) t_is),
    ) in
    let below : Below reservation_key w.next_reservation w.reservations =
      rw (next_w, rows_w)
        (Below-snoc reservation_key (id + 1) s.reservations row
          (Below-mono reservation_key id (id + 1) s.reservations (omega arith) h.1)
          (omega (arith, row-key payload n id))) in
    rw read (done, Created-IsSound payload s w row h all.0 below done)

share_le : (rows : List Available) (n : ℕ) → stock_share rows n ≤ sum_by (λ a. a.quantity) rows
unfolding stock_share
share_le rows n = omega arith

share_le_n : (rows : List Available) (n : ℕ) → stock_share rows n ≤ n
unfolding stock_share
share_le_n rows n = omega arith

selected-append :
    (l m : List Selected) → selected_quantity (l ++ m) ≡ selected_quantity l + selected_quantity m
unfolding selected_quantity
selected-append l m = sum_by-append (λ x. x.quantity) l m

-- From a sound database, a creation that returns has added a reservation with the next key and the
-- positive quantity that was asked for, and exactly that quantity is held for it, in stock and in open
-- orders; what is held for the others, the other reservations and the stock are as they were, and the
-- database is sound.
pub create_reservation-Created :
    (collates : Text → Text → Bool) (payload : NewReservation) (s : Db)
    → IsSound s
    → After (λ r' s'. Created payload s r' s' × IsSound s') (create_reservation collates payload s)
unfolding create_reservation insert_reservation
create_reservation-Created collates payload s h =
    let Q : Reservation → Db → Type 0 = λ r' s'. Created payload s r' s' × IsSound s' in
    After-reader (λ n. (payload.quantity ≡ pos n) × (0 < n)) Q _ _ s
      (require_positive-After payload.quantity s)
      λ n asked.
        After-reader (λ _. Unit) Q _ _ s (project-After payload.project_id s)
          λ _ _.
            After-reader (λ _. has_item payload.item_id s.items ≡ true) Q _ _ s
              (require_item-After payload.item_id s)
              λ _ _.
                After-reader (λ l. selected_quantity l ≤ n) Q _ _ s (preferred-After payload n s)
                  λ preferred some_preferred.
                    let rows = available_inventory collates payload.item_id s in
                    let share = stock_share rows (n - selected_quantity preferred) in
                    After-reader
                      (λ l. selected_quantity l ≡ n - selected_quantity preferred - share) Q _ _ s
                      (shortfall-After payload (n - selected_quantity preferred - share) s)
                      λ more some_more.
                        After-continue (λ _ u. SameHoldings (with_row payload n s) u) Q _ _
                          (log-SameHoldings reserve payload.item_id (pos n) none none _ _ none _)
                          λ log u same.
                            allocated payload n share rows (preferred ++ more) s
                              (with_row payload n s) u h asked.0 asked.1 refl same
                              (share_le rows (n - selected_quantity preferred))
                              (omega (
                                arith,
                                selected-append preferred more,
                                some_preferred,
                                some_more,
                                share_le_n rows (n - selected_quantity preferred),
                              ))
