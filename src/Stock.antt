-- ===== src/Stock.antt =====
-- The inventory ledger of backend/app/service.py: reading a quantity, and
-- `_apply_inventory_delta`, through which every change of stock goes.
pub mod Laws
pub mod Delta
pub mod Total
use materials_management_sha.Prelude.{
  ℕ, zero, suc, ◌+◌, ◌-◌, ℤ, pos, negsuc, Bool, true, false, ◌&&◌, Option, none, some, List, [],
  ◌∷◌, ◌==◌, ltb, if◌then◌else◌, sum_by, ◌||◌, not,
}
use materials_management_sha.Text.{Text, text_eq, is_empty, strip}
use materials_management_sha.Database.{
  Db, StockRow, Error, invalid_field, insufficient_stock, Result, ok, err, Action, ◌>>=◌, ◌>>◌,
  pure, raise, lift, gets, attribute_error, raise_if, integrity_error,
}

-- `require_non_empty` of backend/app/utils.py; `None.strip()` is an AttributeError.
unfoldable pub require_non_empty : Option Text → Result Text
unfolding is_empty
require_non_empty none = err attribute_error
require_non_empty (some value) =
    let normalized = strip value in if is_empty normalized then err invalid_field else ok normalized

-- Whether a row stands for an item at a location.
unfoldable pub is_at : ℕ → Text → StockRow → Bool
is_at item location r = r.item_id == item && text_eq r.location location

-- SELECT quantity … WHERE item_id = ? AND location = ?
unfoldable pub find_quantity : ℕ → Text → List StockRow → Option ℕ
unfolding is_at
find_quantity item location [] = none
find_quantity item location (r ∷ rows) =
    if is_at item location r then some r.quantity else find_quantity item location rows

abbrev or_zero : Option ℕ → ℕ
or_zero none = 0
or_zero (some q) = q

-- `_get_inventory_quantity`: 0 where the ledger has no row.
unfoldable pub quantity_at : ℕ → Text → List StockRow → ℕ
unfolding find_quantity
quantity_at item location rows = or_zero (find_quantity item location rows)

-- INSERT … ON CONFLICT (item_id, location) DO UPDATE SET quantity = quantity + EXCLUDED.quantity
unfoldable pub upsert : ℕ → Text → ℕ → List StockRow → List StockRow
unfolding is_at
upsert item location n [] = record { item_id = item; location = location; quantity = n } ∷ []
upsert item location n (r ∷ rows) =
    if is_at item location r
    then record r { quantity = r.quantity + n } ∷ rows
    else r ∷ upsert item location n rows

-- UPDATE … SET quantity = q, on the row of the key
unfoldable pub set_quantity : ℕ → Text → ℕ → List StockRow → List StockRow
unfolding is_at
set_quantity item location q [] = []
set_quantity item location q (r ∷ rows) =
    if is_at item location r
    then record r { quantity = q } ∷ rows
    else r ∷ set_quantity item location q rows

-- DELETE … WHERE item_id = ? AND location = ?, on the row of the key
unfoldable pub delete_row : ℕ → Text → List StockRow → List StockRow
unfolding is_at
delete_row item location [] = []
delete_row item location (r ∷ rows) =
    if is_at item location r then rows else r ∷ delete_row item location rows

-- The UPDATE that lowers a quantity, with its guard `quantity + ? >= 0`, and the DELETE of a row
-- that reaches 0. It returns the updated quantity.
unfoldable pub lower : ℕ → Text → ℕ → Option ℕ → List StockRow → Result (ℕ × List StockRow)
lower item location n none rows = err insufficient_stock
lower item location n (some q) rows =
    if ltb q n
    then err insufficient_stock
    else if q - n == 0
    then ok (0, delete_row item location rows)
    else ok (q - n, set_quantity item location (q - n) rows)

-- The two statements of `_apply_inventory_delta`, on a location that is already stripped.
unfoldable pub apply_delta : ℕ → Text → ℤ → List StockRow → Result (ℕ × List StockRow)
unfolding quantity_at lower
apply_delta item location (pos (suc n)) rows =
    let rows' = upsert item location (suc n) rows in ok (quantity_at item location rows', rows')
apply_delta item location (pos zero) rows =
    lower item location 0 (find_quantity item location rows) rows
apply_delta item location (negsuc n) rows =
    lower item location (suc n) (find_quantity item location rows) rows

unfoldable pub put_stock : Result (ℕ × List StockRow) → Action ℕ
put_stock (ok (q, rows)) s = ok (q, record s { stock = rows })
put_stock (err e) s = err e

-- Whether a row of `items_master` has this key.
unfoldable pub has_item : ℕ → List ℕ → Bool
has_item item [] = false
has_item item (i ∷ items) = i == item || has_item item items

unfoldable pub is_positive : ℤ → Bool
is_positive (pos (suc n)) = true
is_positive (pos zero) = false
is_positive (negsuc n) = false

-- `_apply_inventory_delta`. A row for an item that is not in `items_master` breaks the foreign key.
unfoldable pub apply_inventory_delta : ℕ → Option Text → ℤ → Action ℕ
apply_inventory_delta item location delta = do
  normalized ← lift (require_non_empty location)
  s ← gets (λ s. s)
  raise_if (is_positive delta && not (has_item item s.items)) integrity_error
  put_stock (apply_delta item normalized delta s.stock)
