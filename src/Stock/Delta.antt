-- ===== src/Stock/Delta.antt =====
-- `_apply_inventory_delta` of backend/app/service.py on the rows of the ledger.
use materials_management_sha.Prelude.{
  ℕ, zero, suc, ◌+◌, ◌-◌, ◌≤◌, ◌<◌, ◌≡◌, refl, ◌⊎◌, inl, inr, true, Option, none, some, List, arith,
  ◌==◌, ltb, if◌then◌else◌, ℤ, pos, negsuc, pos_part, neg_part, Bool-cases,
}
use materials_management_sha.Text.{Text, text_eq_iff}
use materials_management_sha.Database.{StockRow, Result, ok, err, insufficient_stock}
use materials_management_sha.Stock.{
  find_quantity, quantity_at, upsert, set_quantity, delete_row, lower, apply_delta,
}
use materials_management_sha.Stock.Laws.{
  same, IsLedger, find_quantity-upsert, find_quantity-set_quantity, find_quantity-delete_row,
  upsert-IsLedger, set_quantity-IsLedger, delete_row-IsLedger,
}

-- The ledger moved by `d` at the key of `i` and `l`, and nowhere else.
abbrev pub Shifts : ℕ → Text → ℤ → List StockRow → List StockRow → Type 0
Shifts i l d rows rows' =
    (j : ℕ) (m : Text)
    → quantity_at j m rows' + (if same i l j m then neg_part d else 0)
      ≡ quantity_at j m rows + (if same i l j m then pos_part d else 0)

-- What a delta does, by how it ends: a ledger again, shifted by the delta, and the new quantity as
-- the result; or a refusal, because the row is missing or holds too little.
abbrev pub Applies : ℕ → Text → ℤ → List StockRow → Result (ℕ × List StockRow) → Type 0
Applies i l d rows (ok (q, rows')) =
    IsLedger rows' × Shifts i l d rows rows' × (q ≡ quantity_at i l rows')
Applies i l d rows (err e) =
    (e ≡ insufficient_stock)
    × (pos_part d ≡ 0)
    × ((find_quantity i l rows ≡ none) ⊎ (quantity_at i l rows < neg_part d))

same_self : (i : ℕ) (l : Text) → same i l i l ≡ true
unfolding same
same_self i l = ground (arith, text_eq_iff l l)

same-quantity :
    (i j : ℕ) (l m : Text) (rows : List StockRow)
    → same i l j m ≡ true
    → quantity_at j m rows ≡ quantity_at i l rows
unfolding same
same-quantity i j l m rows h = ground (arith, text_eq_iff l m)

raise-Shifts :
    (i n : ℕ) (l : Text) (rows : List StockRow) → Shifts i l (pos n) rows (upsert i l n rows)
unfolding quantity_at
raise-Shifts i n l rows j m = ground (arith, find_quantity-upsert i j n l m rows)

set-Shifts :
    (i n q : ℕ) (l : Text) (rows : List StockRow) (d : ℤ)
    → find_quantity i l rows ≡ some q
    → n ≤ q
    → pos_part d ≡ 0
    → neg_part d ≡ n
    → Shifts i l d rows (set_quantity i l (q - n) rows)
unfolding quantity_at
set-Shifts i n q l rows d e le p k j m =
    ground (arith, find_quantity-set_quantity i j (q - n) q l m rows e, same-quantity i j l m rows)

delete-Shifts :
    (i q : ℕ) (l : Text) (rows : List StockRow) (d : ℤ)
    → IsLedger rows
    → find_quantity i l rows ≡ some q
    → pos_part d ≡ 0
    → neg_part d ≡ q
    → Shifts i l d rows (delete_row i l rows)
unfolding quantity_at
delete-Shifts i q l rows d h e p k j m =
    ground (arith, find_quantity-delete_row i j l m rows h, same-quantity i j l m rows)

lower-Applies :
    (i n : ℕ) (l : Text) (rows : List StockRow) (d : ℤ) (found : Option ℕ)
    → IsLedger rows
    → pos_part d ≡ 0
    → neg_part d ≡ n
    → find_quantity i l rows ≡ found
    → Applies i l d rows (lower i l n found rows)
unfolding lower quantity_at
lower-Applies i n l rows d none h p k e = (refl, p, inl e)
lower-Applies i n l rows d (some q) h p k e = elim (Bool-cases (ltb q n)) [
  | inl short ↦ rw short (refl, p, inr (rw e (ground arith)))
  | inr enough ↦ elim (Bool-cases (q - n == 0)) [
    | inl empties ↦
        rw (enough, empties)
          (
            delete_row-IsLedger i l rows h,
            delete-Shifts i q l rows d h e p (ground arith),
            ground (arith, find_quantity-delete_row i i l l rows h, same_self i l),
          )
    | inr stays ↦
        rw (enough, stays)
          (
            set_quantity-IsLedger i (q - n) q l rows (ground arith) e h,
            set-Shifts i n q l rows d e (ground arith) p k,
            ground (arith, find_quantity-set_quantity i i (q - n) q l l rows e, same_self i l),
          )
  ]
]

-- On a well-formed ledger, a delta shifts the stock at its key by exactly the delta and nowhere else, keeps the
-- ledger well formed and returns the new quantity; it is refused only where it would take more
-- than there is, or where there is no row to take from.
pub apply_delta-Applies :
    (i : ℕ) (l : Text) (d : ℤ) (rows : List StockRow)
    → IsLedger rows
    → Applies i l d rows (apply_delta i l d rows)
unfolding apply_delta
apply_delta-Applies i l (pos zero) rows h =
    lower-Applies i 0 l rows (pos 0) (find_quantity i l rows) h refl refl refl
apply_delta-Applies i l (pos (suc n)) rows h =
    (upsert-IsLedger i (suc n) l rows (omega arith) h, raise-Shifts i (suc n) l rows, refl)
apply_delta-Applies i l (negsuc n) rows h =
    lower-Applies i (suc n) l rows (negsuc n) (find_quantity i l rows) h refl refl refl

pub apply_delta_total :
    (i : ℕ) (l : Text) (d : ℤ) (rows : List StockRow)
    → 0 < pos_part d
    → (q : ℕ) × (rows' : List StockRow) × (apply_delta i l d rows ≡ ok (q, rows'))
unfolding apply_delta
apply_delta_total i l (pos zero) rows h = absurd (omega arith)
apply_delta_total i l (pos (suc n)) rows h =
    (quantity_at i l (upsert i l (suc n) rows), upsert i l (suc n) rows, refl)
apply_delta_total i l (negsuc n) rows h = absurd (omega arith)
