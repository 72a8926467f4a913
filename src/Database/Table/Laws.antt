-- ===== src/Database/Table/Laws.antt =====
-- What each statement on a table does to the rows that a key finds, and to a sum over the rows.
use materials_management_sha.Prelude.{
  ℕ, ◌+◌, ◌≤◌, ◌<◌, ◌≡◌, refl, ◌≢◌, Bool, none, some, List, [], ◌∷◌, ◌++◌, arith, sum_by, keep,
  Bool-cases, inl, inr, ==_refl,
}
use materials_management_sha.Database.Table.{find, update, Below, IsKeyed}

module _ {Row : Type 0} (key : Row → ℕ) where
  -- Every row of a list stands in the table under its key.
  abbrev pub Stands : List Row → List Row → Type 0
  Stands rows [] = Unit
  Stands rows (a ∷ l) = (find key (key a) rows ≡ some a) × Stands rows l

  pub find-above : (n j : ℕ) (rows : List Row) → Below key n rows → n ≤ j → find key j rows ≡ none
  unfolding find
  find-above n j [] h p = refl
  find-above n j (r ∷ rows) h p = ground (arith, find-above n j rows h.1 p)

  pub find-snoc :
      (j : ℕ) (rows : List Row) (r x : Row)
      → find key j rows ≡ some x
      → find key j (rows ++ r ∷ []) ≡ some x
  unfolding find
  find-snoc j [] r x h = cc
  find-snoc j (y ∷ rows) r x h = ground (arith, find-snoc j rows r x)

  pub find-snoc_none :
      (j : ℕ) (rows : List Row) (r : Row)
      → find key j rows ≡ none
      → key r ≢ j
      → find key j (rows ++ r ∷ []) ≡ none
  unfolding find
  find-snoc_none j [] r h ne = ground arith
  find-snoc_none j (y ∷ rows) r h ne = ground (arith, find-snoc_none j rows r)

  pub find-snoc_new :
      (rows : List Row) (r : Row)
      → find key (key r) rows ≡ none
      → find key (key r) (rows ++ r ∷ []) ≡ some r
  unfolding find
  find-snoc_new [] r h = ground arith
  find-snoc_new (y ∷ rows) r h = ground (arith, find-snoc_new rows r)

  pub find-snoc_ne :
      (j : ℕ) (rows : List Row) (r : Row)
      → j ≢ key r
      → find key j (rows ++ r ∷ []) ≡ find key j rows
  unfolding find
  find-snoc_ne j [] r ne = ground arith
  find-snoc_ne j (y ∷ rows) r ne = ground (arith, find-snoc_ne j rows r ne)

  pub Below-mono : (n m : ℕ) (rows : List Row) → n ≤ m → Below key n rows → Below key m rows
  Below-mono n m [] p h = tt
  Below-mono n m (r ∷ rows) p h = (omega arith, Below-mono n m rows p h.1)

  pub Below-snoc :
      (n : ℕ) (rows : List Row) (r : Row)
      → Below key n rows
      → key r < n
      → Below key n (rows ++ r ∷ [])
  Below-snoc n [] r h p = (p, tt)
  Below-snoc n (y ∷ rows) r h p = (h.0, Below-snoc n rows r h.1 p)

  pub IsKeyed-snoc :
      (rows : List Row) (r : Row)
      → IsKeyed key rows
      → find key (key r) rows ≡ none
      → IsKeyed key (rows ++ r ∷ [])
  unfolding find
  IsKeyed-snoc [] r h fresh = (refl, tt)
  IsKeyed-snoc (y ∷ rows) r h fresh =
      ground (arith, find-snoc_none (key y) rows r, IsKeyed-snoc rows r h.1)

  pub find-keep-none :
      (j : ℕ) (p : Row → Bool) (rows : List Row)
      → find key j rows ≡ none
      → find key j (keep p rows) ≡ none
  unfolding find keep
  find-keep-none j p [] h = refl
  find-keep-none j p (r ∷ rows) h = ground (arith, find-keep-none j p rows)

  pub IsKeyed-keep :
      (p : Row → Bool) (rows : List Row) → IsKeyed key rows → IsKeyed key (keep p rows)
  unfolding keep
  IsKeyed-keep p [] h = tt
  IsKeyed-keep p (r ∷ rows) h =
      ground (arith, IsKeyed-keep p rows h.1, find-keep-none (key r) p rows h.0)

  Stands-cons :
      (r : Row) (rows l : List Row)
      → find key (key r) rows ≡ none
      → Stands rows l
      → Stands (r ∷ rows) l
  unfolding find
  Stands-cons r rows [] h s = tt
  Stands-cons r rows (a ∷ l) h s = ground (arith, Stands-cons r rows l h s.1)

  pub Stands-keep :
      (p : Row → Bool) (rows : List Row) → IsKeyed key rows → Stands rows (keep p rows)
  unfolding find keep
  Stands-keep p [] h = tt
  Stands-keep p (r ∷ rows) h = elim (Bool-cases (p r)) [
    | inl e ↦
        rw e
          (rw (==_refl (key r)) refl, Stands-cons r rows (keep p rows) h.0 (Stands-keep p rows h.1))
    | inr e ↦ rw e (Stands-cons r rows (keep p rows) h.0 (Stands-keep p rows h.1))
  ]

  pub Stands-self : (rows : List Row) → IsKeyed key rows → Stands rows rows
  unfolding find
  Stands-self [] h = tt
  Stands-self (r ∷ rows) h =
      (rw (==_refl (key r)) refl, Stands-cons r rows rows h.0 (Stands-self rows h.1))

  pub Stands-snoc : (rows l : List Row) (r : Row) → Stands rows l → Stands (rows ++ r ∷ []) l
  Stands-snoc rows [] r s = tt
  Stands-snoc rows (a ∷ l) r s = (find-snoc (key a) rows r a s.0, Stands-snoc rows l r s.1)

  module _ (k : ℕ) (f : Row → Row) (keeps : (r : Row) → key (f r) ≡ key r) where
    pub find-update_ne :
        (j : ℕ) (rows : List Row) → j ≢ k → find key j (update key k f rows) ≡ find key j rows
    unfolding find update
    find-update_ne j [] ne = refl
    find-update_ne j (r ∷ rows) ne = ground (arith, find-update_ne j rows ne, keeps r)

    pub find-update_self :
        (rows : List Row) (x : Row)
        → find key k rows ≡ some x
        → find key k (update key k f rows) ≡ some (f x)
    unfolding find update
    find-update_self [] x h = cc
    find-update_self (r ∷ rows) x h = ground (arith, find-update_self rows x, keeps r)

    pub find-update-none :
        (j : ℕ) (rows : List Row) → find key j rows ≡ none → find key j (update key k f rows) ≡ none
    unfolding find update
    find-update-none j [] h = refl
    find-update-none j (r ∷ rows) h = ground (arith, find-update-none j rows, keeps r)

    pub Below-update :
        (n : ℕ) (rows : List Row) → Below key n rows → Below key n (update key k f rows)
    unfolding update
    Below-update n [] h = tt
    Below-update n (r ∷ rows) h = ground (arith, keeps r, Below-update n rows h.1)

    pub IsKeyed-update : (rows : List Row) → IsKeyed key rows → IsKeyed key (update key k f rows)
    unfolding update
    IsKeyed-update [] h = tt
    IsKeyed-update (r ∷ rows) h =
        ground (arith, keeps r, IsKeyed-update rows h.1, find-update-none (key r) rows h.0)

    update-none : (rows : List Row) → find key k rows ≡ none → update key k f rows ≡ rows
    unfolding find update
    update-none [] h = refl
    update-none (r ∷ rows) h = ground (arith, update-none rows)

    pub sum_by-update :
        (w : Row → ℕ) (rows : List Row) (x : Row)
        → IsKeyed key rows
        → find key k rows ≡ some x
        → sum_by w (update key k f rows) + w x ≡ sum_by w rows + w (f x)
    unfolding find update sum_by
    sum_by-update w [] x h e = cc
    sum_by-update w (r ∷ rows) x h e = ground (arith, sum_by-update w rows x h.1, update-none rows)

    pub Stands-update :
        (rows l : List Row) → find key k l ≡ none → Stands rows l → Stands (update key k f rows) l
    unfolding find
    Stands-update rows [] h s = tt
    Stands-update rows (a ∷ l) h s =
        ground (arith, find-update_ne (key a) rows, Stands-update rows l)
