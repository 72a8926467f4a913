-- ===== src/Movement/Flows.antt =====
-- What the rows of the transaction log say of the inventory ledger, and when a change of stock is
-- what they say.
use materials_management_sha.Prelude.{
  ℕ, ◌+◌, ◌≡◌, refl, ℤ, pos_part, neg_part, Bool, false, ◌&&◌, not, Option, none, some, List, [],
  ◌∷◌, ◌++◌, if◌then◌else◌, sum_by, arith, Bool-cases, inl, inr, sum_by-snoc,
}
use materials_management_sha.Text.{Text, strip}
use materials_management_sha.Database.{Db, LogRow, StockRow, Operation, ok, err, Result}
use materials_management_sha.Database.Triples.{After, After-raise_if, After-lift}
use materials_management_sha.Stock.{
  quantity_at, apply_delta, put_stock, has_item, is_positive, require_non_empty,
  apply_inventory_delta,
}
use materials_management_sha.Stock.Laws.{same, IsLedger}
use materials_management_sha.Stock.Delta.{Applies, apply_delta-Applies}
use materials_management_sha.Movement.{log_transaction}

-- Whether a location column of a log row names the key of `j` and `m`: the ledger has stripped it.
unfoldable pub touches : Option Text → ℕ → ℕ → Text → Bool
touches none i j m = false
touches (some l) i j m = same i (strip l) j m

unfoldable pub entering : ℕ → Text → LogRow → ℕ
entering j m r = if touches r.to_location r.item_id j m then r.quantity else 0

unfoldable pub leaving : ℕ → Text → LogRow → ℕ
leaving j m r = if touches r.from_location r.item_id j m then r.quantity else 0

-- What the rows of a log bring to a key of the ledger, and what they take from it.
unfoldable pub inflow : ℕ → Text → List LogRow → ℕ
inflow j m log = sum_by (entering j m) log

unfoldable pub outflow : ℕ → Text → List LogRow → ℕ
outflow j m log = sum_by (leaving j m) log

-- From `s` to `s'` every quantity has changed by what the new rows of the log say.
abbrev pub Journals : Db → Db → Type 0
Journals s s' =
    IsLedger s'.stock
    × ((j : ℕ) (m : Text)
        → quantity_at j m s'.stock + outflow j m s'.log + inflow j m s.log
          ≡ quantity_at j m s.stock + outflow j m s.log + inflow j m s'.log)

pub Journals-trans : (s t u : Db) → Journals s t → Journals t u → Journals s u
Journals-trans s t u h k = (k.0, λ j m. omega (arith, h.1 j m, k.1 j m))

-- The stock has moved by `d` at a location of an item, and the log is as it was.
abbrev pub Moved : ℕ → Option Text → ℤ → Db → Db → Type 0
Moved i l d s s' =
    (s'.log ≡ s.log)
    × IsLedger s'.stock
    × ((j : ℕ) (m : Text)
        → quantity_at j m s'.stock + (if touches l i j m then neg_part d else 0)
          ≡ quantity_at j m s.stock + (if touches l i j m then pos_part d else 0))

put_stock-Moved :
    (i : ℕ) (l : Text) (d : ℤ) (s : Db) (x : Result (ℕ × List StockRow))
    → Applies i (strip l) d s.stock x
    → After (λ q s'. Moved i (some l) d s s') (put_stock x s)
unfolding put_stock touches
put_stock-Moved i l d s (ok (q, rows)) h = (refl, h.0, h.1)
put_stock-Moved i l d s (err e) h = tt

require_non_empty-strip : (l : Text) {n : Text} → require_non_empty (some l) ≡ ok n → strip l ≡ n
unfolding require_non_empty
require_non_empty-strip l h = ground arith

pub apply_inventory_delta-Moved :
    (i : ℕ) (l : Option Text) (d : ℤ) (s : Db)
    → IsLedger s.stock
    → After (λ q s'. Moved i l d s s') (apply_inventory_delta i l d s)
unfolding apply_inventory_delta require_non_empty
apply_inventory_delta-Moved i none d s h = tt
apply_inventory_delta-Moved i (some l) d s h =
    After-lift (λ q s'. Moved i (some l) d s s') (require_non_empty (some l)) _ s
      (λ n e.
        After-raise_if (λ q s'. Moved i (some l) d s s') (is_positive d && not (has_item i s.items))
          _ _ s
          (λ _. rw (← require_non_empty-strip l e) (
            put_stock-Moved i l d s (apply_delta i (strip l) d s.stock)
              (apply_delta-Applies i (strip l) d s.stock h))))

-- A row has been appended to the log, and the stock is as it was.
abbrev pub Logged : Operation → ℕ → ℕ → Option Text → Option Text → Db → LogRow → Db → Type 0
Logged op i n from_location to_location s row s' =
    (s'.stock ≡ s.stock)
    × (s'.log ≡ s.log ++ row ∷ [])
    × (row.operation_type ≡ op)
    × (row.item_id ≡ i)
    × (row.quantity ≡ n)
    × (row.from_location ≡ from_location)
    × (row.to_location ≡ to_location)

pub log_transaction-Logged :
    (op : Operation) (i : ℕ) (d : ℤ) (from_location to_location note batch : Option Text)
    (undo_of : Option ℕ) (s : Db)
    → After
        (Logged op i (pos_part d) from_location to_location s)
        (log_transaction op i d from_location to_location note batch undo_of s)
unfolding log_transaction
log_transaction-Logged op i d _ _ _ _ _ s =
    elim (Bool-cases (is_positive d && has_item i s.items)) [
      | inl fine ↦ rw fine (refl, refl, refl, refl, refl, refl, refl)
      | inr bad ↦ rw bad tt
    ]

flows-Logged :
    (op : Operation) (i n : ℕ) (from_location to_location : Option Text) (s s' : Db) (row : LogRow)
    (j : ℕ) (m : Text)
    → Logged op i n from_location to_location s row s'
    → (inflow j m s'.log ≡ inflow j m s.log + (if touches to_location i j m then n else 0))
      × (outflow j m s'.log ≡ outflow j m s.log + (if touches from_location i j m then n else 0))
unfolding inflow outflow entering leaving
flows-Logged op i n from_location to_location s s' row j m h = (
  rw h.1 (ground (arith, sum_by-snoc (entering j m) s.log row)),
  rw h.1 (ground (arith, sum_by-snoc (leaving j m) s.log row)),
)

-- The stock has changed by what `up` and `down` say, and the log is as it was.
abbrev pub Changed : (ℕ → Text → ℕ) → (ℕ → Text → ℕ) → Db → Db → Type 0
Changed up down s s' =
    (s'.log ≡ s.log)
    × IsLedger s'.stock
    × ((j : ℕ) (m : Text) → quantity_at j m s'.stock + down j m ≡ quantity_at j m s.stock + up j m)

-- What a log row says of a key, by the column that names a location.
abbrev pub part : Option Text → ℕ → ℕ → ℕ → Text → ℕ
part l i n j m = if touches l i j m then n else 0

-- A change of stock that is logged as it was made.
pub Changed-Logged :
    (op : Operation) (i n : ℕ) (from_location to_location : Option Text) (s t u : Db) (row : LogRow)
    → Changed (part to_location i n) (part from_location i n) s t
    → Logged op i n from_location to_location t row u
    → Journals s u
Changed-Logged op i n from_location to_location s t u row changed logged = (
  rw logged.0 changed.1,
  λ j m.
      let flows = flows-Logged op i n from_location to_location t u row j m logged in
      rw (logged.0, ← changed.0) (omega (arith, flows.0, flows.1, changed.2 j m)),
)
