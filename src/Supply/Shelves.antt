-- ===== src/Supply/Shelves.antt =====
-- What `_list_item_available_inventory` of backend/app/service.py offers of each location.
use materials_management_sha.Prelude.{
  ℕ, ◌+◌, ◌≤◌, ◌≡◌, refl, Bool, none, List, [], ◌∷◌, if◌then◌else◌, sum_by, keep, arith, Bool-cases,
  inl, inr, sum_by-keep, Option-cases, sym, ◌∙◌, some, false,
}
use materials_management_sha.Text.{Text, text_eq, text_eq_iff, codes}
use materials_management_sha.Database.{Db, StockRow}
use materials_management_sha.Stock.{find_quantity, quantity_at}
use materials_management_sha.Stock.Laws.{IsLedger}
use materials_management_sha.Supply.{
  Available, available_at, list_available, available_inventory, insert_stock, sort_stock, is_shelf,
  stands_before,
}

-- The quantity of a row of the list, if it is of a location.
unfoldable pub offered : Text → Available → ℕ
offered l a = if text_eq a.location l then a.quantity else 0

insert_stock-sum :
    (w : StockRow → ℕ) (collates : Text → Text → Bool) (a : StockRow) (rows : List StockRow)
    → sum_by w (insert_stock collates a rows) ≡ w a + sum_by w rows
unfolding insert_stock sum_by
insert_stock-sum w collates a [] = refl
insert_stock-sum w collates a (b ∷ rows) = elim (Bool-cases (stands_before collates a b)) [
  | inl e ↦ rw e refl
  | inr e ↦ rw e (omega (arith, insert_stock-sum w collates a rows))
]

sort_stock-sum :
    (w : StockRow → ℕ) (collates : Text → Text → Bool) (rows : List StockRow)
    → sum_by w (sort_stock collates rows) ≡ sum_by w rows
unfolding sort_stock sum_by
sort_stock-sum w collates [] = refl
sort_stock-sum w collates (a ∷ rows) = omega (
  arith,
  insert_stock-sum w collates a (sort_stock collates rows),
  sort_stock-sum w collates rows,
)

module _ (i : ℕ) (l : Text) (s : Db) where
  -- What is available at a row, if it is of the location.
  unfoldable shelf : StockRow → ℕ
  shelf r = if text_eq r.location l then available_at i r.location s else 0

  unfoldable own_shelf : StockRow → ℕ
  own_shelf r = if is_shelf i r then shelf r else 0

  list_available-offered :
      (rows : List StockRow) → sum_by (offered l) (list_available i s rows) ≤ sum_by shelf rows
  unfolding list_available sum_by offered shelf
  list_available-offered [] = omega arith
  list_available-offered (r ∷ rows) = ground (arith, list_available-offered rows)

  no_row : (rows : List StockRow) → find_quantity i l rows ≡ none → sum_by own_shelf rows ≡ 0
  unfolding find_quantity sum_by own_shelf shelf is_shelf
  no_row [] e = refl
  no_row (r ∷ rows) e = ground (arith, no_row rows)

  one_row : (rows : List StockRow) → IsLedger rows → sum_by own_shelf rows ≤ available_at i l s
  unfolding find_quantity sum_by own_shelf shelf is_shelf
  one_row [] h = omega arith
  one_row (r ∷ rows) h =
      ground (arith, text_eq_iff r.location l, one_row rows h.2, no_row rows, h.1)

  -- The list offers no more of a location than is available there.
  pub available_inventory-offered :
      (collates : Text → Text → Bool)
      → IsLedger s.stock
      → sum_by (offered l) (available_inventory collates i s) ≤ available_at i l s
  unfolding available_inventory own_shelf
  available_inventory-offered collates h =
      let rows = keep (is_shelf i) s.stock in
      omega (
        arith,
        list_available-offered (sort_stock collates rows),
        sort_stock-sum shelf collates rows,
        sum_by-keep shelf (is_shelf i) s.stock,
        one_row s.stock h,
      )

  list_available-shelves :
      (rows : List StockRow) → sum_by (offered l) (list_available i s rows) ≡ sum_by shelf rows
  unfolding list_available sum_by offered shelf
  list_available-shelves [] = refl
  list_available-shelves (r ∷ rows) = ground (arith, list_available-shelves rows)

  found_row :
      (rows : List StockRow) (q : ℕ)
      → IsLedger rows
      → text_eq l (codes "RESERVED") ≡ false
      → find_quantity i l rows ≡ some q
      → sum_by own_shelf rows ≡ available_at i l s
  unfolding find_quantity sum_by own_shelf shelf is_shelf
  found_row [] q h plain e = cc
  found_row (r ∷ rows) q h plain e =
      ground
        (arith, plain, text_eq_iff r.location l, found_row rows q h.2 plain, no_row rows, h.1, h.0)

  nothing_available : find_quantity i l s.stock ≡ none → available_at i l s ≡ 0
  unfolding available_at quantity_at
  nothing_available e = rw e (omega arith)

  -- From a well-formed ledger, whatever the collation, the list of what is available of an item
  -- offers of every location but `RESERVED` exactly what `_get_available_inventory_quantity` computes
  -- there, a location that it leaves out being one without any.
  pub available_inventory-available_at :
      (collates : Text → Text → Bool)
      → IsLedger s.stock
      → text_eq l (codes "RESERVED") ≡ false
      → sum_by (offered l) (available_inventory collates i s) ≡ available_at i l s
  unfolding available_inventory own_shelf
  available_inventory-available_at collates h plain =
      let rows = keep (is_shelf i) s.stock in
      let listed : sum_by (offered l) (available_inventory collates i s)
          ≡ sum_by own_shelf s.stock =
        list_available-shelves (sort_stock collates rows)
        ∙ (sort_stock-sum shelf collates rows ∙ sum_by-keep shelf (is_shelf i) s.stock) in
      elim (Option-cases (find_quantity i l s.stock)) [
        | inl missing ↦ listed ∙ (no_row s.stock missing ∙ sym (nothing_available missing))
        | inr (q, found) ↦ listed ∙ found_row s.stock q h plain found
      ]
