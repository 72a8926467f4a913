-- ===== src/Database/Table/Deletes.antt =====
-- What a DELETE by key does to the rows that a key finds, and to a sum over the rows.
use materials_management_sha.Database.Table.Laws.{Stands}
use materials_management_sha.Prelude.{
  ℕ, ◌+◌, ◌≡◌, refl, ◌≢◌, none, some, List, [], ◌∷◌, arith, sum_by, Bool-cases, inl, inr, ◌==◌,
}
use materials_management_sha.Database.Table.{find, delete, IsKeyed, Below}

module _ {Row : Type 0} (key : Row → ℕ) (k : ℕ) where
  pub find-delete_self : (rows : List Row) → find key k (delete key k rows) ≡ none
  unfolding find delete
  find-delete_self [] = refl
  find-delete_self (r ∷ rows) = ground (arith, find-delete_self rows)

  pub find-delete_ne :
      (j : ℕ) (rows : List Row) → j ≢ k → find key j (delete key k rows) ≡ find key j rows
  unfolding find delete
  find-delete_ne j [] ne = refl
  find-delete_ne j (r ∷ rows) ne = ground (arith, find-delete_ne j rows ne)

  pub delete-none : (rows : List Row) → find key k rows ≡ none → delete key k rows ≡ rows
  unfolding find delete
  delete-none [] h = refl
  delete-none (r ∷ rows) h = ground (arith, delete-none rows)

  pub sum_by-delete :
      (w : Row → ℕ) (rows : List Row) (x : Row)
      → IsKeyed key rows
      → find key k rows ≡ some x
      → sum_by w (delete key k rows) + w x ≡ sum_by w rows
  unfolding find delete sum_by
  sum_by-delete w [] x h e = cc
  sum_by-delete w (r ∷ rows) x h e = ground (arith, sum_by-delete w rows x h.1, delete-none rows)

  find-delete-none :
      (j : ℕ) (rows : List Row) → find key j rows ≡ none → find key j (delete key k rows) ≡ none
  unfolding find delete
  find-delete-none j [] h = refl
  find-delete-none j (r ∷ rows) h = ground (arith, find-delete-none j rows)

  pub IsKeyed-delete : (rows : List Row) → IsKeyed key rows → IsKeyed key (delete key k rows)
  unfolding delete
  IsKeyed-delete [] h = tt
  IsKeyed-delete (r ∷ rows) h = elim (Bool-cases (key r == k)) [
    | inl e ↦ rw e (IsKeyed-delete rows h.1)
    | inr e ↦ rw e (find-delete-none (key r) rows h.0, IsKeyed-delete rows h.1)
  ]

  pub Below-delete : (n : ℕ) (rows : List Row) → Below key n rows → Below key n (delete key k rows)
  unfolding delete
  Below-delete n [] h = tt
  Below-delete n (r ∷ rows) h = elim (Bool-cases (key r == k)) [
    | inl e ↦ rw e (Below-delete n rows h.1)
    | inr e ↦ rw e (h.0, Below-delete n rows h.1)
  ]

  pub Stands-delete :
      (rows l : List Row)
      → find key k l ≡ none
      → Stands key rows l
      → Stands key (delete key k rows) l
  unfolding find
  Stands-delete rows [] h s = tt
  Stands-delete rows (a ∷ l) h s = ground (arith, find-delete_ne (key a) rows, Stands-delete rows l)
