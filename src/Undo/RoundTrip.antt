-- ===== src/Undo/RoundTrip.antt =====
-- A move of backend/app/service.py, and its undo by `undo_transaction`.
use materials_management_sha.Movement.Made.{Made, move_inventory-Made}
use materials_management_sha.Movement.{move_inventory}
use materials_management_sha.Database.Table.Laws.{find-above, find-snoc_new}
use materials_management_sha.Database.Table.{Below, find}
use materials_management_sha.Prelude.{
  ℕ, ◌+◌, ◌≤◌, ◌<◌, ◌≡◌, refl, pos, neg_ℕ, true, false, Option, some, ◌==◌, arith, ◌++◌, [], ◌∷◌,
}
use materials_management_sha.Text.{Text, strip, is_empty, text_eq}
use materials_management_sha.Database.{Db, LogRow, move}
use materials_management_sha.Database.Triples.{
  Returns, Returns-continue, Returns-raise_if, Returns-map, Returns-both,
}
use materials_management_sha.Stock.{quantity_at, has_item}
use materials_management_sha.Stock.Laws.{IsLedger}
use materials_management_sha.Movement.Flows.{touches, part, Logged}
use materials_management_sha.Movement.Transfer.{
  Ready, take_Ready, give_Ready, log_Returns, Transferred, move_inventory_lem,
}
use materials_management_sha.Undo.{
  log_undo, quantity_of, undoable, undo_move, log_key, get_transaction, undo_row, mark_undone,
  undo_transaction,
}

-- Every quantity of the ledger is as it was.
abbrev pub Restored : Db → Db → Type 0
Restored s t = (j : ℕ) (m : Text) → quantity_at j m t.stock ≡ quantity_at j m s.stock

-- `n` units are back where they came from.
abbrev Returned : ℕ → ℕ → Text → Text → Db → Db → Type 0
Returned i n a b t u =
    (j : ℕ) (m : Text)
    → quantity_at j m u.stock + part (some b) i n j m
      ≡ quantity_at j m t.stock + part (some a) i n j m

undoable-Returns :
    (i n : ℕ) (b : Text) (t : Db)
    → 0 < n
    → n ≤ quantity_at i b t.stock
    → Returns (λ k t'. (k ≡ n) × (t' ≡ t)) (undoable i n (some b) t)
unfolding undoable quantity_of
undoable-Returns i n b t p enough =
    Returns-raise_if (λ k t'. (k ≡ n) × (t' ≡ t)) (quantity_at i b t.stock == 0) _ _ t
      (ground (arith, p, enough)) (omega (arith, enough), refl)

two_steps :
    (i n : ℕ) (a b : Text) (t u v : Db)
    → Ready i t u n (some b) (neg_ℕ n)
    → Ready i u v n (some a) (pos n)
    → Returned i n a b t v
unfolding touches
two_steps i n a b t u v out enter j m = ground (arith, out.0.2 j m, enter.0.2 j m)

undo_move-Returned :
    (id : ℕ) (row : LogRow) (a b : Text) (note : Option Text) (t : Db)
    → IsLedger t.stock
    → 0 < row.quantity
    → row.from_location ≡ some a
    → row.to_location ≡ some b
    → strip b ≡ b
    → is_empty (strip a) ≡ false
    → is_empty (strip b) ≡ false
    → has_item row.item_id t.items ≡ true
    → row.quantity ≤ quantity_at row.item_id b t.stock
    → Returns (λ _ u. Returned row.item_id row.quantity a b t u) (undo_move id row note t)
unfolding undo_move log_undo
undo_move-Returned id row a b _ t h p from_a to_b plain full_a full_b known enough =
    let i = row.item_id in
    let n = row.quantity in
    let Q : LogRow → Db → Type 0 = λ _ u. Returned i n a b t u in
    rw (from_a, to_b)
      (Returns-continue (λ k t'. (k ≡ n) × (t' ≡ t)) Q _ _ (undoable-Returns i n b t p enough)
        λ k t' is.
          rw (is.0, is.1)
            (Returns-continue (λ _ u. Ready i t u n (some b) (neg_ℕ n)) Q _ _
              (take_Ready i n b t h p full_b (rw plain enough))
              λ _ u out.
                Returns-continue (λ _ v. Ready i u v n (some a) (pos n)) Q _ _
                  (give_Ready i n a u out.0.1 p full_a (rw out.1 known))
                  λ _ v enter.
                    Returns-map (Logged move i n (some b) (some a) v) Q _
                      (log_Returns move i n (some b) (some a) _ _ _ v p (rw (enter.1, out.1) known))
                      λ row' w logged. rw logged.0 (two_steps i n a b t u v out enter)))

-- The undo of a move that stands in the log and has not been undone.
undo_found :
    (id : ℕ) (row : LogRow) (note : Option Text) (s t : Db)
    → find log_key id t.log ≡ some row
    → row.is_undone ≡ false
    → row.operation_type ≡ move
    → ((text : Option Text) → Returns (λ _ u. Restored s u) (undo_move id row text t))
    → Returns (λ _ u. Restored s u) (undo_transaction id note t)
unfolding undo_transaction get_transaction undo_row mark_undone undo_move
undo_found id row _ s t found fresh is_move undone =
    rw (found, fresh, is_move)
      (Returns-continue (λ _ u. Restored s u) (λ _ u. Restored s u) _ _ (undone _)
        λ _ u restored. restored)

back :
    (i n : ℕ) (a b : Text) (s t u : Db)
    → ((j : ℕ) (m : Text)
        → quantity_at j m t.stock + part (some a) i n j m
          ≡ quantity_at j m s.stock + part (some b) i n j m)
    → Returned i n a b t u
    → Restored s u
unfolding touches
back i n a b s t u made returned j m = omega (arith, made j m, returned j m)

row_found :
    (s t : Db) (row : LogRow)
    → Below log_key s.next_log s.log
    → row.log_id ≡ s.next_log
    → t.log ≡ s.log ++ row ∷ []
    → find log_key row.log_id t.log ≡ some row
row_found s t row below numbered logged = rw logged (
    find-snoc_new log_key s.log row
      (find-above log_key s.next_log row.log_id s.log below (omega (arith, numbered))))

undone :
    (i n : ℕ) (a b : Text) (s t : Db) (row : LogRow) (text : Option Text)
    → row.item_id ≡ i
    → row.quantity ≡ n
    → (row.from_location ≡ some a) × (row.to_location ≡ some b)
    → IsLedger t.stock
    → ((j : ℕ) (m : Text)
        → quantity_at j m t.stock + part (some a) i n j m
          ≡ quantity_at j m s.stock + part (some b) i n j m)
    → 0 < n
    → strip b ≡ b
    → is_empty (strip a) ≡ false
    → is_empty (strip b) ≡ false
    → has_item i t.items ≡ true
    → n ≤ quantity_at i b t.stock
    → Returns (λ _ u. Restored s u) (undo_move row.log_id row text t)
undone i n a b s t row _ item_is n_is columns h made p plain full_a full_b known enough =
    Returns-map (λ _ u. Returned row.item_id row.quantity a b t u) (λ _ u. Restored s u) _
      (undo_move-Returned row.log_id row a b _ t h (rw n_is p) columns.0 columns.1 plain full_a
        full_b (rw item_is known) (rw (item_is, n_is) enough))
      λ _ u returned. back i n a b s t u made (rw (← item_is, ← n_is) returned)

-- A move to a location whose name has no spaces around it, made under the conditions under which a
-- move succeeds from a well-formed ledger and a log with its keys below the next one, returns, and
-- its undo then returns and leaves every quantity of the ledger as it was before the move.
pub undo_transaction-move_inventory :
    (i n : ℕ) (a b : Text) (note batch undo_note : Option Text) (s : Db)
    → IsLedger s.stock
    → Below log_key s.next_log s.log
    → 0 < n
    → has_item i s.items ≡ true
    → is_empty (strip a) ≡ false
    → is_empty (strip b) ≡ false
    → text_eq (strip a) (strip b) ≡ false
    → n ≤ quantity_at i (strip a) s.stock
    → strip b ≡ b
    → Returns
        (λ row t. Returns (λ _ u. Restored s u) (undo_transaction row.log_id undo_note t))
        (move_inventory i (pos n) (some a) (some b) note batch move s)
undo_transaction-move_inventory i n a b _ _ _ s h below p known full_a full_b ne enough plain =
    Returns-map
      (λ row t. Transferred move i n a b s row t × Made move i n (some a) (some b) s row t)
      (λ row t. Returns (λ _ u. Restored s u) (undo_transaction row.log_id _ t)) _
      (Returns-both (Transferred move i n a b s) (Made move i n (some a) (some b) s) _
        (move_inventory_lem move i n a b _ _ s h p known full_a full_b ne enough)
        (move_inventory-Made move i n (some a) (some b) _ _ s h))
      λ row t (transferred, made).
        undo_found row.log_id row _ s t (row_found s t row below made.0 made.7) made.1 made.2
          λ text.
            undone i n a b s t row text made.3 made.4 (made.5, made.6) made.9 made.10 p plain full_a
              full_b (rw made.8 known) (rw (← plain) (omega (arith, transferred.2)))
