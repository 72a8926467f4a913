-- ===== src/Database/Table/Maps.antt =====
-- What an UPDATE of many rows leaves of keys and sums, where it keeps them row by row.
use materials_management_sha.Prelude.{ℕ, ◌≡◌, refl, none, List, [], ◌∷◌, map, arith, sum_by}
use materials_management_sha.Database.Table.{find, Below, IsKeyed}

module _ {Row : Type 0} (f : Row → Row) where
  pub sum_by-map :
      (w : Row → ℕ)
      → ((r : Row) → w (f r) ≡ w r)
      → (rows : List Row) → sum_by w (map f rows) ≡ sum_by w rows
  unfolding sum_by
  sum_by-map w same [] = refl
  sum_by-map w same (r ∷ rows) = ground (arith, same r, sum_by-map w same rows)

  module _ (key : Row → ℕ) (keeps : (r : Row) → key (f r) ≡ key r) where
    pub find-map-none :
        (j : ℕ) (rows : List Row) → find key j rows ≡ none → find key j (map f rows) ≡ none
    unfolding find
    find-map-none j [] h = refl
    find-map-none j (r ∷ rows) h = ground (arith, keeps r, find-map-none j rows)

    pub Below-map : (n : ℕ) (rows : List Row) → Below key n rows → Below key n (map f rows)
    Below-map n [] h = tt
    Below-map n (r ∷ rows) h = ground (arith, keeps r, Below-map n rows h.1)

    pub IsKeyed-map : (rows : List Row) → IsKeyed key rows → IsKeyed key (map f rows)
    IsKeyed-map [] h = tt
    IsKeyed-map (r ∷ rows) h =
        ground (arith, keeps r, IsKeyed-map rows h.1, find-map-none (key r) rows h.0)
