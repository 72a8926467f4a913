-- ===== src/Stock/Total.antt =====
-- What there is of an item over all locations.
use materials_management_sha.Prelude.{
  ℕ, zero, suc, ◌+◌, ◌-◌, ◌≡◌, refl, ◌&&◌, Option, none, some, List, [], ◌∷◌, arith, ◌==◌, ltb,
  if◌then◌else◌, sum_by, ℤ, pos, negsuc, pos_part, neg_part, Bool-cases, inl, inr, not,
}
use materials_management_sha.Text.{Text}
use materials_management_sha.Database.{Db, StockRow, Result, ok, err}
use materials_management_sha.Database.Triples.{After, After-lift, After-raise_if}
use materials_management_sha.Stock.{
  find_quantity, upsert, set_quantity, delete_row, lower, apply_delta, put_stock, require_non_empty,
  apply_inventory_delta, is_positive, has_item,
}

unfoldable pub of_item : ℕ → StockRow → ℕ
of_item item r = if r.item_id == item then r.quantity else 0

unfoldable pub on_hand : ℕ → List StockRow → ℕ
unfolding of_item
on_hand item rows = sum_by (of_item item) rows

upsert_total :
    (i j n : ℕ) (l : Text) (rows : List StockRow)
    → on_hand j (upsert i l n rows) ≡ on_hand j rows + (if i == j then n else 0)
unfolding on_hand sum_by upsert
upsert_total i j n l [] = ground arith
upsert_total i j n l (r ∷ rows) = ground (arith, upsert_total i j n l rows)

set_total :
    (i j p q : ℕ) (l : Text) (rows : List StockRow)
    → find_quantity i l rows ≡ some p
    → on_hand j (set_quantity i l q rows) + (if i == j then p else 0)
      ≡ on_hand j rows + (if i == j then q else 0)
unfolding on_hand sum_by set_quantity find_quantity
set_total i j p q l [] h = cc
set_total i j p q l (r ∷ rows) h = ground (arith, set_total i j p q l rows)

delete_total :
    (i j p : ℕ) (l : Text) (rows : List StockRow)
    → find_quantity i l rows ≡ some p
    → on_hand j (delete_row i l rows) + (if i == j then p else 0) ≡ on_hand j rows
unfolding on_hand sum_by delete_row find_quantity
delete_total i j p l [] h = cc
delete_total i j p l (r ∷ rows) h = ground (arith, delete_total i j p l rows)

-- The total of an item has moved by `d` from one ledger to another, and no other total has.
abbrev pub Totals : ℕ → ℤ → List StockRow → List StockRow → Type 0
Totals i d rows rows' =
    (j : ℕ)
    → on_hand j rows' + (if i == j then neg_part d else 0)
      ≡ on_hand j rows + (if i == j then pos_part d else 0)

abbrev Changes : ℕ → ℤ → List StockRow → Result (ℕ × List StockRow) → Type 0
Changes i d rows (ok (q, rows')) = Totals i d rows rows'
Changes i d rows (err e) = Unit

lower_Totals :
    (i n : ℕ) (l : Text) (rows : List StockRow) (d : ℤ) (found : Option ℕ)
    → pos_part d ≡ 0
    → neg_part d ≡ n
    → find_quantity i l rows ≡ found
    → Changes i d rows (lower i l n found rows)
unfolding lower
lower_Totals i n l rows d none p k e = tt
lower_Totals i n l rows d (some q) p k e = elim (Bool-cases (ltb q n)) [
  | inl short ↦ rw short tt
  | inr enough ↦ elim (Bool-cases (q - n == 0)) [
    | inl empties ↦ rw (enough, empties) (λ j. ground (arith, delete_total i j q l rows e))
    | inr stays ↦ rw (enough, stays) (λ j. ground (arith, set_total i j q (q - n) l rows e))
  ]
]

apply_delta-Totals :
    (i : ℕ) (l : Text) (d : ℤ) (rows : List StockRow) → Changes i d rows (apply_delta i l d rows)
unfolding apply_delta
apply_delta-Totals i l (pos zero) rows =
    lower_Totals i 0 l rows (pos 0) (find_quantity i l rows) refl refl refl
apply_delta-Totals i l (pos (suc n)) rows = λ j. ground (arith, upsert_total i j (suc n) l rows)
apply_delta-Totals i l (negsuc n) rows =
    lower_Totals i (suc n) l rows (negsuc n) (find_quantity i l rows) refl refl refl

put_stock-Totals :
    (i : ℕ) (d : ℤ) (s : Db) (x : Result (ℕ × List StockRow))
    → Changes i d s.stock x
    → After (λ _ s'. Totals i d s.stock s'.stock) (put_stock x s)
unfolding put_stock
put_stock-Totals i d s (ok (q, rows)) h = h
put_stock-Totals i d s (err e) h = tt

-- A delta that is applied changes the total of its item by exactly the delta, and no other total.
pub apply_inventory_delta-Totals :
    (i : ℕ) (l : Option Text) (d : ℤ) (s : Db)
    → After (λ _ s'. Totals i d s.stock s'.stock) (apply_inventory_delta i l d s)
unfolding apply_inventory_delta
apply_inventory_delta-Totals i l d s =
    After-lift (λ _ s'. Totals i d s.stock s'.stock) (require_non_empty l) _ s
      λ n _.
        After-raise_if (λ _ s'. Totals i d s.stock s'.stock)
          (is_positive d && not (has_item i s.items)) _ _ s
          λ _. put_stock-Totals i d s (apply_delta i n d s.stock) (apply_delta-Totals i n d s.stock)
