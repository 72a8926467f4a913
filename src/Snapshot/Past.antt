-- ===== src/Snapshot/Past.antt =====
-- The snapshot of a past day, after the inventory calls that have been made since.
use mathlib.Core.Path.{subst}
use materials_management_sha.Prelude.{
  ℕ, ◌<◌, ◌≤◌, ◌≡◌, refl, sym, ap, ◌∙◌, Bool, true, false, List, [], ◌∷◌, ◌++◌, arith, ltb,
  sum_by-snoc, keep,
}
use materials_management_sha.Text.{Text}
use materials_management_sha.Database.{Db, LogRow, StockRow}
use materials_management_sha.Drain.Laws.{All}
use materials_management_sha.Stock.{quantity_at}
use materials_management_sha.Stock.Laws.{IsLedger}
use materials_management_sha.Movement.Flows.{Journals, entering, leaving, inflow, outflow}
use materials_management_sha.Undo.History.{Step, Step-Journals}
use materials_management_sha.Snapshot.{
  rewind_row, rewind_all, is_newer, insert_newest, newest_first, rows_after, past_state,
}
use materials_management_sha.Snapshot.Rewind.{IsPlain, Says, Shows, rewind_row-Shows}

-- Whether a row is of a day up to `target`, or later than it.
unfoldable pub is_after : (ℕ → ℕ) → ℕ → LogRow → Bool
is_after day_of target r = ltb target (day_of r.timestamp)

-- The row comes last in a log.
unfoldable pub IsLast : LogRow → List LogRow → Type 0
IsLast row log = All (λ r. (r.timestamp ≤ row.timestamp) × (r.log_id < row.log_id)) log

-- Calls since the end of the day `target`, each of which wrote one plain row; the newest row first.
pub data Since (day_of : ℕ → ℕ) (target : ℕ) (s : Db) : List LogRow → Db → Type 0 where
  none_yet : Since day_of target s [] s
  called :
      {rows : List LogRow} {t u : Db} (row : LogRow)
      → Since day_of target s rows t
      → Step t u
      → u.log ≡ t.log ++ row ∷ []
      → IsPlain row
      → is_after day_of target row ≡ true
      → IsLast row t.log
      → Since day_of target s (row ∷ rows) u

unfoldable pub quantities : Db → ℕ → Text → ℕ
quantities s j m = quantity_at j m s.stock

self-Shows : (t : Db) → IsLedger t.stock → Shows (quantities t) t.stock
unfolding quantities
self-Shows t h = record { ledger = h; shown = λ j m. refl }

Journals-Says :
    (t u : Db) (row : LogRow)
    → u.log ≡ t.log ++ row ∷ []
    → Journals t u
    → Says row.item_id row.quantity row.from_location row.to_location (quantities t) (quantities u)
unfolding Says quantities inflow outflow entering leaving
Journals-Says t u row e h j m = omega (
  arith,
  h.1 j m,
  ap (inflow j m) e,
  ap (outflow j m) e,
  sum_by-snoc (entering j m) t.log row,
  sum_by-snoc (leaving j m) t.log row,
)

Since-ledger :
    (day_of : ℕ → ℕ) (target : ℕ) (s t : Db) (rows : List LogRow)
    → IsLedger s.stock
    → Since day_of target s rows t
    → IsLedger t.stock
Since-ledger day_of target s t [] h none_yet = h
Since-ledger day_of target s u (row ∷ rows) h (called {t = t} _ c k e p a l) =
    (Step-Journals t u (Since-ledger day_of target s t rows h c) k).0

Since-rewind :
    (day_of : ℕ → ℕ) (target : ℕ) (s t : Db) (rows : List LogRow) (state : List StockRow)
    → IsLedger s.stock
    → Since day_of target s rows t
    → Shows (quantities t) state
    → Shows (quantities s) (rewind_all rows state)
unfolding rewind_all
Since-rewind day_of target s t [] state h none_yet x = x
Since-rewind day_of target s u (row ∷ rows) state h (called {t = t} _ c k e p a l) x =
    Since-rewind day_of target s t rows (rewind_row row state) h c (
      rewind_row-Shows row (quantities t) (quantities u) state p
        (Journals-Says t u row e (Step-Journals t u (Since-ledger day_of target s t rows h c) k)) x)

older-insert :
    (a row : LogRow) (rows : List LogRow)
    → (a.timestamp ≤ row.timestamp) × (a.log_id < row.log_id)
    → insert_newest a (row ∷ rows) ≡ row ∷ insert_newest a rows
unfolding insert_newest is_newer
older-insert a row rows h = ground arith

newest_first-last :
    (row : LogRow) (log : List LogRow)
    → IsLast row log
    → newest_first (log ++ row ∷ []) ≡ row ∷ newest_first log
unfolding newest_first insert_newest IsLast
newest_first-last row [] h = refl
newest_first-last row (a ∷ log) h =
    ap (insert_newest a) (newest_first-last row log h.1) ∙ older-insert a row (newest_first log) h.0

keep-last :
    (p : LogRow → Bool) (row : LogRow) (log : List LogRow)
    → p row ≡ true
    → keep p (log ++ row ∷ []) ≡ keep p log ++ row ∷ []
unfolding keep
keep-last p row [] h = rw h refl
keep-last p row (a ∷ log) h = ground (arith, keep-last p row log h)

IsLast-keep :
    (p : LogRow → Bool) (row : LogRow) (log : List LogRow)
    → IsLast row log
    → IsLast row (keep p log)
unfolding keep IsLast
IsLast-keep p row [] h = tt
IsLast-keep p row (a ∷ log) h = ground (arith, IsLast-keep p row log h.1)

pub rows_after-last :
    (day_of : ℕ → ℕ) (target : ℕ) (row : LogRow) (log : List LogRow)
    → is_after day_of target row ≡ true
    → IsLast row log
    → rows_after day_of target (log ++ row ∷ []) ≡ row ∷ rows_after day_of target log
unfolding rows_after is_after
rows_after-last day_of target row log a l =
    let p : LogRow → Bool = λ r. ltb target (day_of r.timestamp) in
    ap newest_first (keep-last p row log a)
    ∙ newest_first-last row (keep p log) (IsLast-keep p row log l)

-- The rows of the day `target` and before it are not read.
pub rows_after-none :
    (day_of : ℕ → ℕ) (target : ℕ) (log : List LogRow)
    → All (λ r. is_after day_of target r ≡ false) log
    → rows_after day_of target log ≡ []
unfolding rows_after is_after keep newest_first
rows_after-none day_of target [] h = refl
rows_after-none day_of target (r ∷ log) h = rw h.0 (rows_after-none day_of target log h.1)

Since-rows :
    (day_of : ℕ → ℕ) (target : ℕ) (s t : Db) (rows : List LogRow)
    → All (λ r. is_after day_of target r ≡ false) s.log
    → Since day_of target s rows t
    → rows_after day_of target t.log ≡ rows
Since-rows day_of target s t [] h none_yet = rows_after-none day_of target s.log h
Since-rows day_of target s u (row ∷ rows) h (called {t = t} _ c k e p a l) =
    ap (rows_after day_of target) e
    ∙ rows_after-last day_of target row t.log a l
    ∙ ap (λ x. row ∷ x) (Since-rows day_of target s t rows h c)

-- From a well-formed ledger whose log has no row later than the day `target`, after calls that
-- wrote one plain row each on later days, in the order of the log, the snapshot of `target` shows
-- every quantity as it was, and is a well-formed ledger.
pub past_state-Since :
    (day_of : ℕ → ℕ) (target : ℕ) (s t : Db) (rows : List LogRow)
    → IsLedger s.stock
    → All (λ r. is_after day_of target r ≡ false) s.log
    → Since day_of target s rows t
    → Shows (quantities s) (past_state day_of target t)
unfolding past_state
past_state-Since day_of target s t rows h old c =
    subst (λ x. Shows (quantities s) (rewind_all x t.stock))
      (sym (Since-rows day_of target s t rows old c))
      (Since-rewind day_of target s t rows t.stock h c
        (self-Shows t (Since-ledger day_of target s t rows h c)))
