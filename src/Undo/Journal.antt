-- ===== src/Undo/Journal.antt =====
-- An undo in backend/app/service.py, and the log row that it writes.
use materials_management_sha.Undo.Returns.{
  get_transaction-After, logged_undo, stays_Changed, undo_move-Journals, undo_arrival-Journals,
  give_back-Journals, undo_adjust-Journals,
}
use materials_management_sha.Prelude.{
  ℕ, ◌+◌, ◌≡◌, refl, Bool, true, false, not, Option, none, some, List, [], ◌∷◌, ◌==◌, sum_by,
  Bool-cases, inl, inr,
}
use materials_management_sha.Text.{Text}
use materials_management_sha.Database.{
  Db, LogRow, Operation, move, consume, reserve, adjust, arrival, released,
}
use materials_management_sha.Database.Triples.{After, After-continue, After-reader, After-raise_if}
use materials_management_sha.Database.Table.{find, update}
use materials_management_sha.Stock.Laws.{IsLedger}
use materials_management_sha.Movement.Flows.{entering, leaving, inflow, outflow, Journals}
use materials_management_sha.Movement.Journal.{Journaled}
use materials_management_sha.Reservation.{is_active}
use materials_management_sha.Reservation.Holdings.{reservation_key}
use materials_management_sha.Reservation.Release.{get_reservation-After}
use materials_management_sha.Undo.{
  log_key, log_undo, quantity_of, undoable, undo_consume, undo_rows, undo_incoming_rows,
  restore_stock_rows, restore_incoming_rows, regain_reservation, is_consumed, undo_release, end_all,
  undo_creation, undo_reserve, undo_consume_row, undo_row, mark_undone, undo_transaction,
}
use materials_management_sha.Undo.Context.{
  ReservationContext, release_of, consume_of, creation_of, other, transaction_context,
}
use materials_management_sha.Undo.Books.{SameBooks}

undoable-After :
    (i n : ℕ) (l : Option Text) (s : Db) → After (λ m s'. (s' ≡ s) × Unit {0}) (undoable i n l s)
unfolding undoable
undoable-After i n l s =
    After-raise_if (λ m s'. (s' ≡ s) × Unit {0}) (quantity_of i l s == 0) _ _ s λ _. (refl, tt)

-- A log row without locations, behind a change of the other tables.
nothing_logged :
    (id : ℕ) (op : Operation) (i n : ℕ) (note : Option Text) (s t : Db)
    → IsLedger s.stock
    → SameBooks s t
    → After (Journaled s) (log_undo id op i n none none note t)
nothing_logged id op i n note s t h same =
    logged_undo id op i n none none note s t (stays_Changed i n s t h same)

undo_release-Journals :
    (rid log_id item n : ℕ) (note : Option Text) (s : Db)
    → IsLedger s.stock
    → After (Journaled s) (undo_release rid log_id item n note s)
unfolding undo_release restore_stock_rows restore_incoming_rows regain_reservation
undo_release-Journals rid log_id item n note s h =
    After-reader (λ r. find reservation_key rid s.reservations ≡ some r) (Journaled s) _ _ s
      (get_reservation-After rid s)
      λ r _. After-raise_if (Journaled s) (is_consumed r.status) _ _ s λ _.
        After-raise_if (Journaled s)
          (not (
            sum_by (λ a. a.quantity) (undo_rows rid released log_id s)
              + sum_by (λ a. a.quantity) (undo_incoming_rows rid released log_id s)
            == n))
          _ _ s
          λ _.
            let t = restore_stock_rows rid log_id (undo_rows rid released log_id s) s in
            let u = restore_incoming_rows rid log_id (undo_incoming_rows rid released log_id s) t in
            nothing_logged log_id reserve item n note s (regain_reservation rid (r.quantity + n) u)
              h (refl, refl)

undo_creation-Journals :
    (id rid item n : ℕ) (note : Option Text) (s : Db)
    → IsLedger s.stock
    → After (Journaled s) (undo_creation id rid item n note s)
unfolding undo_creation end_all
undo_creation-Journals id rid item n note s h =
    After-reader (λ r. find reservation_key rid s.reservations ≡ some r) (Journaled s) _ _ s
      (get_reservation-After rid s)
      λ r _.
        After-raise_if (Journaled s) (not (is_active r.status)) _ _ s
          λ _. nothing_logged id reserve item n note s (end_all rid note s) h (refl, refl)

undo_reserve-Journals :
    (id : ℕ) (row : LogRow) (c : ReservationContext) (note : Option Text) (s : Db)
    → IsLedger s.stock
    → After (Journaled s) (undo_reserve id row c note s)
unfolding undo_reserve
undo_reserve-Journals id row (release_of rid log_id) note s h =
    undo_release-Journals rid log_id row.item_id row.quantity note s h
undo_reserve-Journals id row (consume_of rid log_id) _ s h = tt
undo_reserve-Journals id row (creation_of rid) note s h =
    undo_creation-Journals id rid row.item_id row.quantity note s h
undo_reserve-Journals id row other _ s h = tt

-- Whether a batch is that of the consumption of a reservation.
unfoldable pub is_consumption : ReservationContext → Bool
is_consumption (release_of rid log_id) = false
is_consumption (consume_of rid log_id) = true
is_consumption (creation_of rid) = false
is_consumption other = false

unfoldable pub consumes_in : ReservationContext → Operation → Bool
consumes_in c move = false
consumes_in c consume = is_consumption c
consumes_in c reserve = false
consumes_in c adjust = false
consumes_in c arrival = false

-- Whether a log row is that of the consumption of a reservation.
unfoldable pub undoes_consumption : LogRow → Bool
undoes_consumption row = consumes_in (transaction_context row.batch_id) row.operation_type

undo_consume-Journals :
    (id : ℕ) (row : LogRow) (note : Option Text) (s : Db)
    → IsLedger s.stock
    → After (Journaled s) (undo_consume id row note s)
unfolding undo_consume
undo_consume-Journals id row note s h = give_back-Journals id row.item_id row.quantity _ note s h

undo_consume_row-Journals :
    (id : ℕ) (row : LogRow) (c : ReservationContext) (note : Option Text) (s : Db)
    → IsLedger s.stock
    → is_consumption c ≡ false
    → After (Journaled s) (undo_consume_row id row c note s)
unfolding undo_consume_row is_consumption
undo_consume_row-Journals id row (release_of rid log_id) note s h e =
    undo_consume-Journals id row note s h
undo_consume_row-Journals id row (consume_of rid log_id) _ s h e = cc
undo_consume_row-Journals id row (creation_of rid) note s h e =
    undo_consume-Journals id row note s h
undo_consume_row-Journals id row other note s h e = undo_consume-Journals id row note s h

undo_row-Journals :
    (id : ℕ) (row : LogRow) (note : Option Text) (op : Operation) (s : Db)
    → IsLedger s.stock
    → consumes_in (transaction_context row.batch_id) op ≡ false
    → After (Journaled s) (undo_row id row note op s)
unfolding undo_row consumes_in
undo_row-Journals id row note move s h e = undo_move-Journals id row note s h
undo_row-Journals id row note arrival s h e = undo_arrival-Journals id row note s h
undo_row-Journals id row note consume s h e =
    undo_consume_row-Journals id row (transaction_context row.batch_id) note s h e
undo_row-Journals id row note adjust s h e = undo_adjust-Journals id row note s h
undo_row-Journals id row note reserve s h e =
    undo_reserve-Journals id row (transaction_context row.batch_id) note s h

-- The flag of a log row says nothing of a quantity.
marked_flows :
    (f : LogRow → ℕ) (id : ℕ) (log : List LogRow)
    → ((r : LogRow) → f (record r { is_undone = true }) ≡ f r)
    → sum_by f (update log_key id (λ r. record r { is_undone = true }) log) ≡ sum_by f log
unfolding update sum_by
marked_flows f id [] h = refl
marked_flows f id (r ∷ log) h = elim (Bool-cases (log_key r == id)) [
  | inl e ↦ rw (e, h r, marked_flows f id log h) refl
  | inr e ↦ rw (e, marked_flows f id log h) refl
]

mark_undone-Journals :
    (id : ℕ) (s t : Db) → Journals s t → After (λ _ u. Journals s u) (mark_undone id t)
unfolding mark_undone inflow outflow entering leaving
mark_undone-Journals id s t h = (
  h.0,
  λ j m.
      rw
        (
          marked_flows (leaving j m) id t.log (λ r. refl),
          marked_flows (entering j m) id t.log (λ r. refl),
        )
        (h.1 j m),
)

-- From a well-formed ledger, an undo that returns has changed every quantity of the ledger by what
-- the log row that it wrote says, and has left a well-formed ledger. This is so of every
-- transaction but the consumption of a reservation, whose undo writes a row without locations.
pub undo_transaction-Journals :
    (id : ℕ) (note : Option Text) (s : Db)
    → IsLedger s.stock
    → ((row : LogRow) → find log_key id s.log ≡ some row → undoes_consumption row ≡ false)
    → After (Journaled s) (undo_transaction id note s)
unfolding undo_transaction undoes_consumption
undo_transaction-Journals id _ s h elsewhere =
    After-reader (λ row. find log_key id s.log ≡ some row) (Journaled s) _ _ s
      (get_transaction-After id s)
      λ row found. After-raise_if (Journaled s) row.is_undone _ _ s λ _.
        After-continue (Journaled s) (Journaled s) _ _
          (undo_row-Journals id row _ row.operation_type s h (elsewhere row found))
          λ undone t done.
            After-continue (λ _ u. Journals s u) (Journaled s) _ _
              (mark_undone-Journals id s t done) λ _ u marked. marked
