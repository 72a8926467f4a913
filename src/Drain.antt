-- ===== src/Drain.antt =====
-- The loop by which backend/app/service.py takes a quantity from the active allocation rows of a
-- reservation, oldest first: a row that is used up is closed, and a row that is not is shrunk, and
-- what was taken of it is inserted as a closed row. `release_reservation` runs it over stock
-- allocations and over incoming ones, `consume_reservation` over stock allocations.
pub mod Laws
pub mod Others
use materials_management_sha.Prelude.{
  ℕ, zero, suc, ◌+◌, ◌-◌, min, Bool, true, false, Option, none, some, List, [], ◌∷◌, ◌++◌, ◌==◌,
  if◌then◌else◌,
}
use materials_management_sha.Database.Table.{find, update}

-- A kind of allocation row: its key and quantity, and what an UPDATE or INSERT makes of a row. The
-- first argument of `close` and `part` is the row that the loop read; `part` also takes the new
-- row's key and quantity.
pub record Kind (Row : Type 0) : Type 0 where
  pub key : Row → ℕ
  pub quantity : Row → ℕ
  pub close : Row → Row → Row
  pub shrink : ℕ → Row → Row
  pub part : Row → ℕ → ℕ → Row → Row

module _ {Row : Type 0} (kind : Kind Row) where
  -- INSERT … SELECT … WHERE key = k; the identity column gives the new row its key.
  unfoldable pub insert_part : Row → ℕ → Option Row → ℕ × List Row → ℕ × List Row
  insert_part a used none t = t
  insert_part a used (some r) (next, rows) = (next + 1, rows ++ kind.part a next used r ∷ [])

  -- The statements for a row `a` of which `used` is taken, on the identity's next value and a table.
  unfoldable pub settle : Row → ℕ → ℕ × List Row → ℕ × List Row
  unfolding insert_part
  settle a used (next, rows) =
      let left = kind.quantity a - used in
      let shrunk = update kind.key (kind.key a) (kind.shrink left) rows in
      if left == 0
      then (next, update kind.key (kind.key a) (kind.close a) rows)
      else insert_part a used (find kind.key (kind.key a) shrunk) (next, shrunk)

  -- The loop over the rows that were read, with what remains to be taken.
  unfoldable pub drain : List Row → ℕ → ℕ × List Row → ℕ × (ℕ × List Row)
  unfolding settle
  drain [] remaining t = (remaining, t)
  drain (a ∷ l) remaining t =
      let used = min (kind.quantity a) remaining in
      let rest = drain l (remaining - used) (settle a used t) in
      if remaining == 0 then (remaining, t) else rest
