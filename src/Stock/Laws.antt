-- ===== src/Stock/Laws.antt =====
-- What each statement on the inventory ledger does to every quantity.
use materials_management_sha.Prelude.{
  ℕ, ◌+◌, ◌<◌, ◌≡◌, refl, Bool, ◌&&◌, none, some, List, [], ◌∷◌, arith, ◌==◌, if◌then◌else◌,
}
use materials_management_sha.Text.{Text, text_eq, text_eq_iff}
use materials_management_sha.Database.{StockRow}
use materials_management_sha.Stock.{find_quantity, quantity_at, upsert, set_quantity, delete_row}

-- Whether two keys of the ledger are one.
unfoldable pub same : ℕ → Text → ℕ → Text → Bool
same i l j m = i == j && text_eq l m

-- Every row has a positive quantity, and no key has two rows.
abbrev pub IsLedger : List StockRow → Type 0
IsLedger [] = Unit
IsLedger (r ∷ rows) =
    (0 < r.quantity) × (find_quantity r.item_id r.location rows ≡ none) × IsLedger rows

pub find_quantity-upsert :
    (i j n : ℕ) (l m : Text) (rows : List StockRow)
    → find_quantity j m (upsert i l n rows)
      ≡ (if same i l j m then some (quantity_at j m rows + n) else find_quantity j m rows)
unfolding quantity_at upsert same
find_quantity-upsert i j n l m [] = ground (arith, text_eq_iff l m)
find_quantity-upsert i j n l m (r ∷ rows) = ground (
  arith,
  text_eq_iff l m,
  text_eq_iff r.location l,
  text_eq_iff r.location m,
  find_quantity-upsert i j n l m rows,
)

pub find_quantity-set_quantity :
    (i j q p : ℕ) (l m : Text) (rows : List StockRow)
    → find_quantity i l rows ≡ some p
    → find_quantity j m (set_quantity i l q rows)
      ≡ (if same i l j m then some q else find_quantity j m rows)
unfolding find_quantity set_quantity same
find_quantity-set_quantity i j q p l m [] h = cc
find_quantity-set_quantity i j q p l m (r ∷ rows) h = ground (
  arith,
  text_eq_iff l m,
  text_eq_iff r.location l,
  text_eq_iff r.location m,
  find_quantity-set_quantity i j q p l m rows,
)

pub find_quantity-delete_row :
    (i j : ℕ) (l m : Text) (rows : List StockRow)
    → IsLedger rows
    → find_quantity j m (delete_row i l rows)
      ≡ (if same i l j m then none else find_quantity j m rows)
unfolding find_quantity delete_row same
find_quantity-delete_row i j l m [] h = ground arith
find_quantity-delete_row i j l m (r ∷ rows) h = ground (
  arith,
  text_eq_iff l m,
  text_eq_iff r.location l,
  text_eq_iff r.location m,
  find_quantity-delete_row i j l m rows h.2,
)

pub upsert-IsLedger :
    (i n : ℕ) (l : Text) (rows : List StockRow)
    → 0 < n
    → IsLedger rows
    → IsLedger (upsert i l n rows)
unfolding upsert find_quantity same
upsert-IsLedger i n l [] p h = (p, refl, tt)
upsert-IsLedger i n l (r ∷ rows) p h = ground (
  arith,
  text_eq_iff l r.location,
  text_eq_iff r.location l,
  find_quantity-upsert i r.item_id n l r.location rows,
  upsert-IsLedger i n l rows p h.2,
)

pub set_quantity-IsLedger :
    (i q p : ℕ) (l : Text) (rows : List StockRow)
    → 0 < q
    → find_quantity i l rows ≡ some p
    → IsLedger rows
    → IsLedger (set_quantity i l q rows)
unfolding set_quantity find_quantity same
set_quantity-IsLedger i q p l [] pos_q e h = tt
set_quantity-IsLedger i q p l (r ∷ rows) pos_q e h = ground (
  arith,
  text_eq_iff l r.location,
  text_eq_iff r.location l,
  find_quantity-set_quantity i r.item_id q p l r.location rows,
  set_quantity-IsLedger i q p l rows pos_q,
)

pub delete_row-IsLedger :
    (i : ℕ) (l : Text) (rows : List StockRow) → IsLedger rows → IsLedger (delete_row i l rows)
unfolding delete_row find_quantity same
delete_row-IsLedger i l [] h = tt
delete_row-IsLedger i l (r ∷ rows) h = ground (
  arith,
  text_eq_iff l r.location,
  text_eq_iff r.location l,
  find_quantity-delete_row i r.item_id l r.location rows h.2,
  delete_row-IsLedger i l rows h.2,
)
