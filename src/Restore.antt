-- ===== src/Restore.antt =====
-- The loop by which the undo of a release or a consumption in backend/app/service.py revives closed
-- allocation rows: `_restore_reservation_allocation_rows` and
-- `_restore_reservation_incoming_allocation_rows`. A row joins the first active row of its kind, or
-- becomes active again.
pub mod Laws
use materials_management_sha.Prelude.{
  ℕ, ◌+◌, Bool, Option, none, some, List, [], ◌∷◌, if◌then◌else◌,
}
use materials_management_sha.Database.Table.{update, delete}

-- A kind of row: `matches a r` holds for an active row `r` that the closed row `a` can join.
pub record Revival (Row : Type 0) : Type 0 where
  pub key : Row → ℕ
  pub quantity : Row → ℕ
  pub matches : Row → Row → Bool
  pub grow : ℕ → Row → Row
  pub revive : Row → Row → Row

-- SELECT … ORDER BY key LIMIT 1, on rows that stand in the order of their keys
unfoldable pub first {ℓ} : {Row : Type ℓ} → (Row → Bool) → List Row → Option Row
first p [] = none
first p (r ∷ rows) = let rest = first p rows in if p r then some r else rest

module _ {Row : Type 0} (kind : Revival Row) where
  unfoldable pub restore_onto : Row → Option Row → List Row → List Row
  restore_onto a none rows = update kind.key (kind.key a) (kind.revive a) rows
  restore_onto a (some r) rows =
      delete kind.key (kind.key a)
        (update kind.key (kind.key r) (kind.grow (kind.quantity r + kind.quantity a)) rows)

  unfoldable pub restore_row : Row → List Row → List Row
  restore_row a rows = restore_onto a (first (kind.matches a) rows) rows

  unfoldable pub restore : List Row → List Row → List Row
  restore [] rows = rows
  restore (a ∷ l) rows = restore l (restore_row a rows)
