-- ===== src/Snapshot/Reserved.antt =====
-- The snapshot of a past day, after a row of a reservation.
use materials_management_sha.Reservation.Kept.{Booked, create_reservation-Booked}
use materials_management_sha.Reservation.Create.{NewReservation, create_reservation}
use materials_management_sha.Database.Triples.{After, After-map}
use materials_management_sha.Prelude.{
  ℕ, ◌+◌, ◌≡◌, ap, ◌∙◌, pos, neg_ℕ, true, false, List, [], ◌∷◌, ◌++◌, arith, ◌≤◌, ◌<◌, Bool, sym,
}
use materials_management_sha.Text.{codes, text_eq, Text}
use materials_management_sha.Database.{Db, LogRow, StockRow, reserve}
use materials_management_sha.Drain.Laws.{All}
use materials_management_sha.Stock.{quantity_at}
use materials_management_sha.Stock.Laws.{same, IsLedger}
use materials_management_sha.Snapshot.{rewind_row, rewind_all, past_state, state_apply, rows_after}
use materials_management_sha.Snapshot.States.{state_apply-IsLedger, quantity_at-state_apply}
use materials_management_sha.Snapshot.Past.{is_after, IsLast, rows_after-last, rows_after-none}

rewind-reserve_stock :
    (row : LogRow) (state : List StockRow)
    → row.operation_type ≡ reserve
    → IsLedger state
    → quantity_at row.item_id (codes "STOCK") (rewind_row row state)
      ≡ quantity_at row.item_id (codes "STOCK") state + row.quantity
unfolding rewind_row same text_eq
rewind-reserve_stock row state e h =
    let i = row.item_id in
    let less = state_apply i (codes "RESERVED") (neg_ℕ row.quantity) state in
    rw e (
      ground (
        arith,
        quantity_at-state_apply i i (codes "STOCK") (codes "STOCK") (pos row.quantity) less
            (state_apply-IsLedger i (codes "RESERVED") (neg_ℕ row.quantity) state h),
        quantity_at-state_apply i i (codes "RESERVED") (codes "STOCK") (neg_ℕ row.quantity) state h,
      ))

-- What such a row does to the snapshots of the days before it.
past_state-reserves :
    (day_of : ℕ → ℕ) (target : ℕ) (s t : Db) (row : LogRow)
    → IsLedger s.stock
    → All (λ r. is_after day_of target r ≡ false) s.log
    → t.stock ≡ s.stock
    → t.log ≡ s.log ++ row ∷ []
    → row.operation_type ≡ reserve
    → is_after day_of target row ≡ true
    → IsLast row s.log
    → quantity_at row.item_id (codes "STOCK") (past_state day_of target t)
      ≡ quantity_at row.item_id (codes "STOCK") s.stock + row.quantity
unfolding past_state rewind_all
past_state-reserves day_of target s t row h old same_stock logged e a l =
    let rows =
      ap (rows_after day_of target) logged
      ∙ rows_after-last day_of target row s.log a l
      ∙ ap (λ x. row ∷ x) (rows_after-none day_of target s.log old) in
    rw (rows, same_stock) (rewind-reserve_stock row s.stock e h)

pos_inj : {a b : ℕ} → pos a ≡ pos b → a ≡ b
pos_inj h = cc

IsLast-row :
    (s : Db) (row : LogRow)
    → row.timestamp ≡ s.now
    → row.log_id ≡ s.next_log
    → (log : List LogRow) → All (λ r. (r.timestamp ≤ s.now) × (r.log_id < s.next_log)) log
    → IsLast row log
unfolding IsLast
IsLast-row s row at id [] h = tt
IsLast-row s row at id (r ∷ log) h = (rw (at, id) h.0, IsLast-row s row at id log h.1)

-- From a well-formed ledger, whose log has no row later than the day `target` and none from after now
-- or with a key that is not below the next one, a reservation that is created on a later day, though it
-- takes nothing off a shelf, makes the snapshot of `target` show at STOCK all that it reserves, more
-- than was there.
pub past_state-create_reservation :
    (day_of : ℕ → ℕ) (target : ℕ) (collates : Text → Text → Bool) (payload : NewReservation) (n : ℕ)
    (s : Db)
    → IsLedger s.stock
    → All (λ r. is_after day_of target r ≡ false) s.log
    → All (λ r. (r.timestamp ≤ s.now) × (r.log_id < s.next_log)) s.log
    → target < day_of s.now
    → payload.quantity ≡ pos n
    → After
        (λ _ t.
          (t.stock ≡ s.stock)
          × (quantity_at payload.item_id (codes "STOCK") (past_state day_of target t)
              ≡ quantity_at payload.item_id (codes "STOCK") s.stock + n))
        (create_reservation collates payload s)
unfolding is_after
past_state-create_reservation day_of target collates payload n s h old past later asked =
    After-map (λ _ t. Booked payload s t) _ _ (create_reservation-Booked collates payload s)
      λ r t (same, (m, q, (row, logged, op, item, amount, at, id))). (
        same.2,
        rw (← item, pos_inj (sym asked ∙ q), ← amount)
            (past_state-reserves day_of target s t row h old same.2 logged op (rw at (ground arith))
              (IsLast-row s row at id s.log past)),
      )
