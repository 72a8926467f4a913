-- ===== src/Undo/History.antt =====
-- Sequences of the inventory calls of backend/app/service.py: each one that returns takes the
-- database to the next one.
use mathlib.Core.Path.{subst}
use materials_management_sha.Prelude.{ℕ, ◌≡◌, refl, ℤ, Option, some, List, false}
use materials_management_sha.Text.{Text}
use materials_management_sha.Database.{Db, LogRow, Operation, Result, ok}
use materials_management_sha.Database.Triples.{After}
use materials_management_sha.Database.Table.{find}
use materials_management_sha.Stock.Laws.{IsLedger}
use materials_management_sha.Movement.{
  move_inventory, consume_inventory, adjust_inventory, batch_inventory_operations, BatchOperation,
}
use materials_management_sha.Movement.Flows.{Journals, Journals-trans}
use materials_management_sha.Movement.Journal.{
  Journaled, move_inventory-Journals, consume_inventory-Journals, adjust_inventory-Journals,
  batch_inventory_operations-Journals,
}
use materials_management_sha.Undo.{log_key, undo_transaction}
use materials_management_sha.Undo.Journal.{undoes_consumption, undo_transaction-Journals}

-- A call that returns.
pub data Step : Db → Db → Type 0 where
  moved :
      {s t : Db} (i : ℕ) (q : ℤ) (a b note batch : Option Text) (op : Operation) (row : LogRow)
      → move_inventory i q a b note batch op s ≡ ok (row, t)
      → Step s t
  spent :
      {s t : Db} (i : ℕ) (q : ℤ) (a note batch : Option Text) (row : LogRow)
      → consume_inventory i q a note batch s ≡ ok (row, t)
      → Step s t
  adjusted :
      {s t : Db} (i : ℕ) (d : ℤ) (l note batch : Option Text) (row : LogRow)
      → adjust_inventory i d l note batch s ≡ ok (row, t)
      → Step s t
  batched :
      {s t : Db} (fresh : Text) (ops : List BatchOperation) (batch : Option Text)
      (rows : List LogRow)
      → batch_inventory_operations fresh ops batch s ≡ ok (rows, t)
      → Step s t
  undone :
      {s t : Db} (id : ℕ) (note : Option Text) (row : LogRow)
      → ((r : LogRow) → find log_key id s.log ≡ some r → undoes_consumption r ≡ false)
      → undo_transaction id note s ≡ ok (row, t)
      → Step s t

-- What calls one after the other reach.
pub data Reaches : Db → Db → Type 0 where
  here : {s : Db} → Reaches s s
  next : {s t u : Db} → Reaches s t → Step t u → Reaches s u

-- What holds if the call returns holds of what it returned.
returned :
    {A : Type 0} (P : A → Db → Type 0) (x : Result (A × Db)) {a : A} {t : Db}
    → After P x
    → x ≡ ok (a, t)
    → P a t
returned P x h e = subst (After P) e h

pub Step-Journals : (s t : Db) → IsLedger s.stock → Step s t → Journals s t
Step-Journals s t h (moved i q a b n batch op row e) =
    returned (Journaled s) _ (move_inventory-Journals i q a b n batch op s h) e
Step-Journals s t h (spent i q a n batch row e) =
    returned (Journaled s) _ (consume_inventory-Journals i q a n batch s h) e
Step-Journals s t h (adjusted i d l n batch row e) =
    returned (Journaled s) _ (adjust_inventory-Journals i d l n batch s h) e
Step-Journals s t h (batched fresh ops batch rows e) =
    returned (Journaled s) _ (batch_inventory_operations-Journals fresh ops batch s h) e
Step-Journals s t h (undone id n row other e) =
    returned (Journaled s) _ (undo_transaction-Journals id n s h other) e

-- Whatever moves, consumptions, adjustments, batches and undos of anything but the consumption of a
-- reservation follow one another from a well-formed ledger: the ledger stays well-formed, and every
-- quantity is the one at the start, changed by what the log rows written since then say.
pub Reaches-Journals : (s t : Db) → IsLedger s.stock → Reaches s t → Journals s t
Reaches-Journals s t h here = (h, λ j m. refl)
Reaches-Journals s u h (next {t = t} before step) =
    let first = Reaches-Journals s t h before in
    Journals-trans s t u first (Step-Journals t u first.0 step)
