-- ===== src/Database/Table.antt =====
-- A table whose rows have a primary key, and the statements on one row.
pub mod Laws
pub mod Maps
pub mod Deletes
use materials_management_sha.Prelude.{
  ℕ, ◌<◌, ◌≡◌, Option, none, some, List, [], ◌∷◌, ◌==◌, if◌then◌else◌,
}

module _ {Row : Type 0} (key : Row → ℕ) where
  -- SELECT … WHERE key = k
  unfoldable pub find : ℕ → List Row → Option Row
  find k [] = none
  find k (r ∷ rows) = if key r == k then some r else find k rows

  -- UPDATE … WHERE key = k
  unfoldable pub update : ℕ → (Row → Row) → List Row → List Row
  update k f [] = []
  update k f (r ∷ rows) = (if key r == k then f r else r) ∷ update k f rows

  -- DELETE … WHERE key = k
  unfoldable pub delete : ℕ → List Row → List Row
  delete k [] = []
  delete k (r ∷ rows) = let rest = delete k rows in if key r == k then rest else r ∷ rest

  -- Every key lies below the identity column's next value.
  abbrev pub Below : ℕ → List Row → Type 0
  Below n [] = Unit {0}
  Below n (r ∷ rows) = (key r < n) × Below n rows

  -- No key stands twice.
  abbrev pub IsKeyed : List Row → Type 0
  IsKeyed [] = Unit
  IsKeyed (r ∷ rows) = (find (key r) rows ≡ none) × IsKeyed rows
