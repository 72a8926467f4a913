-- ===== src/Movement/Made.antt =====
-- The log row of a move of backend/app/service.py, and what it says of the database behind it.
use materials_management_sha.Prelude.{
  ℕ, ◌+◌, ◌<◌, ◌≡◌, refl, ◌∙◌, ap, ℤ, pos, neg_ℕ, true, false, ◌&&◌, Option, none, List, [], ◌∷◌,
  ◌++◌, Bool-cases, inl, inr, not,
}
use materials_management_sha.Text.{Text}
use materials_management_sha.Database.{Db, LogRow, StockRow, Operation, Result, ok, err}
use materials_management_sha.Database.Triples.{
  After, After-continue, After-reader, After-raise_if, After-map, After-lift, After-both,
}
use materials_management_sha.Stock.{
  quantity_at, apply_delta, put_stock, has_item, is_positive, require_non_empty,
  apply_inventory_delta,
}
use materials_management_sha.Stock.Laws.{IsLedger}
use materials_management_sha.Movement.{log_transaction, move_inventory, same_location}
use materials_management_sha.Movement.Flows.{
  Moved, apply_inventory_delta-Moved, Logged, log_transaction-Logged, Changed, part,
}
use materials_management_sha.Movement.Journal.{
  require_positive-After, require_item-After, move_Changed,
}

-- The items and the numbering of the log are as they were.
abbrev SameNumbering : Db → Db → Type 0
SameNumbering s t = (t.items ≡ s.items) × (t.next_log ≡ s.next_log)

put_stock-SameNumbering :
    (s : Db) (x : Result (ℕ × List StockRow)) → After (λ _ t. SameNumbering s t) (put_stock x s)
unfolding put_stock
put_stock-SameNumbering s (ok (q, rows)) = (refl, refl)
put_stock-SameNumbering s (err e) = tt

delta-SameNumbering :
    (i : ℕ) (l : Option Text) (d : ℤ) (s : Db)
    → After (λ _ t. SameNumbering s t) (apply_inventory_delta i l d s)
unfolding apply_inventory_delta
delta-SameNumbering i l d s =
    After-lift (λ _ t. SameNumbering s t) (require_non_empty l) _ s
      λ n _.
        After-raise_if (λ _ t. SameNumbering s t) (is_positive d && not (has_item i s.items)) _ _ s
          λ _. put_stock-SameNumbering s (apply_delta i n d s.stock)

pos_inj : (n k : ℕ) → pos n ≡ pos k → n ≡ k
pos_inj n k h = cc

-- The row is the next one, and it has not been undone.
abbrev Numbered : Db → LogRow → Db → Type 0
Numbered s row t = (row.log_id ≡ s.next_log) × (row.is_undone ≡ false) × (t.items ≡ s.items)

log-Numbered :
    (op : Operation) (i : ℕ) (q : ℤ) (a b note batch : Option Text) (undo_of : Option ℕ) (s : Db)
    → After (Numbered s) (log_transaction op i q a b note batch undo_of s)
unfolding log_transaction
log-Numbered op i q a b _ _ _ s = elim (Bool-cases (is_positive q && has_item i s.items)) [
  | inl fine ↦ rw fine (refl, refl, refl)
  | inr bad ↦ rw bad tt
]

-- What a move has made: a change of stock, and the row that describes it.
abbrev pub Made : Operation → ℕ → ℕ → Option Text → Option Text → Db → LogRow → Db → Type 0
Made op i n a b s row t =
    (row.log_id ≡ s.next_log)
    × (row.is_undone ≡ false)
    × (row.operation_type ≡ op)
    × (row.item_id ≡ i)
    × (row.quantity ≡ n)
    × (row.from_location ≡ a)
    × (row.to_location ≡ b)
    × (t.log ≡ s.log ++ row ∷ [])
    × (t.items ≡ s.items)
    × IsLedger t.stock
    × ((j : ℕ) (m : Text)
        → quantity_at j m t.stock + part a i n j m ≡ quantity_at j m s.stock + part b i n j m)

parts-Made :
    (op : Operation) (i n : ℕ) (a b : Option Text) (s u t : Db) (row : LogRow)
    → SameNumbering s u
    → Changed (part b i n) (part a i n) s u
    → Logged op i n a b u row t
    → Numbered u row t
    → Made op i n a b s row t
parts-Made op i n a b s u t row same changed logged numbered = (
  numbered.0 ∙ same.1,
  numbered.1,
  logged.2,
  logged.3,
  logged.4,
  logged.5,
  logged.6,
  logged.1 ∙ ap (λ l. l ++ row ∷ []) changed.0,
  numbered.2 ∙ same.0,
  rw logged.0 changed.1,
  rw logged.0 changed.2,
)

-- A change of stock, with the numbering.
delta-Moved :
    (i : ℕ) (l : Option Text) (d : ℤ) (s : Db)
    → IsLedger s.stock
    → After (λ _ t. Moved i l d s t × SameNumbering s t) (apply_inventory_delta i l d s)
delta-Moved i l d s h =
    After-both (λ _ t. Moved i l d s t) (λ _ t. SameNumbering s t) _
      (apply_inventory_delta-Moved i l d s h) (delta-SameNumbering i l d s)

pub move_inventory-Made :
    (op : Operation) (i n : ℕ) (a b note batch : Option Text) (s : Db)
    → IsLedger s.stock
    → After (Made op i n a b s) (move_inventory i (pos n) a b note batch op s)
unfolding move_inventory
move_inventory-Made op i n a b _ _ s h =
    let Q : LogRow → Db → Type 0 = Made op i n a b s in
    After-reader (λ k. (pos n ≡ pos k) × (0 < k)) Q _ _ s (require_positive-After (pos n) s)
      λ k is_n. rw (← pos_inj n k is_n.0) (
        After-raise_if Q (same_location a b) _ _ s λ _.
          After-reader (λ _. has_item i s.items ≡ true) Q _ _ s (require_item-After i s)
            λ _ _.
              After-continue (λ _ t. Moved i a (neg_ℕ n) s t × SameNumbering s t) Q _ _
                (delta-Moved i a (neg_ℕ n) s h)
                λ _ t out.
                  After-continue (λ _ u. Moved i b (pos n) t u × SameNumbering t u) Q _ _
                    (delta-Moved i b (pos n) t out.0.1)
                    λ _ u enter.
                      After-map (λ row v. Logged op i n a b u row v × Numbered u row v) Q _
                        (After-both (Logged op i n a b u) (Numbered u) _
                          (log_transaction-Logged op i (pos n) a b _ _ none u)
                          (log-Numbered op i (pos n) a b _ _ none u))
                        λ row v logged.
                          parts-Made op i n a b s u v row (enter.1.0 ∙ out.1.0, enter.1.1 ∙ out.1.1)
                            (move_Changed i n a b s t u out.0 enter.0) logged.0 logged.1)
