-- ===== src/Drain/Laws.antt =====
-- The loop over allocation rows: the tables, and the sum of the active rows.
use materials_management_sha.Prelude.{
  ℕ, ◌+◌, ◌-◌, ◌≤◌, ◌≡◌, refl, min, List, [], ◌∷◌, ◌==◌, arith, sum_by, sum_by-snoc, Bool-cases,
  inl, inr,
}
use materials_management_sha.Database.Table.{find, update, Below, IsKeyed}
use materials_management_sha.Database.Table.Laws.{
  Stands, find-above, Below-mono, Below-snoc, IsKeyed-snoc, Stands-snoc, Below-update,
  IsKeyed-update, sum_by-update, Stands-update, find-update_self,
}
use materials_management_sha.Drain.{Kind, settle, drain, insert_part}

-- What a kind of row must do: keep keys, and give the parts their quantity.
pub record IsKind {Row : Type 0} (kind : Kind Row) (w : Row → ℕ) (holds : Row → Type 0)
    : Type 0 where
  pub close_key : (a r : Row) → kind.key (kind.close a r) ≡ kind.key r
  pub shrink_key : (n : ℕ) (r : Row) → kind.key (kind.shrink n r) ≡ kind.key r
  pub part_key : (a : Row) (n used : ℕ) (r : Row) → kind.key (kind.part a n used r) ≡ n
  pub close_weight : (a r : Row) → w (kind.close a r) ≡ 0
  pub part_weight : (a : Row) (n used : ℕ) (r : Row) → w (kind.part a n used r) ≡ 0
  -- an active row of the reservation weighs its quantity, before and after it is shrunk
  pub weight : (r : Row) → holds r → w r ≡ kind.quantity r
  pub shrink_weight : (n : ℕ) (r : Row) → holds r → w (kind.shrink n r) ≡ n

abbrev pub All : {A : Type 0} → (A → Type 0) → List A → Type 0
All P [] = Unit
All P (x ∷ xs) = P x × All P xs

-- A table with its identity column.
abbrev pub IsTable : {Row : Type 0} → (Row → ℕ) → ℕ × List Row → Type 0
IsTable key (next, rows) = IsKeyed key rows × Below key next rows

module _ {Row : Type 0} (kind : Kind Row) (w : Row → ℕ) (holds : Row → Type 0)
    (is : IsKind kind w holds) where
  -- The rows that are still to be drained stand unchanged in the table.
  abbrev pub Ready : List Row → ℕ × List Row → Type 0
  Ready l (next, rows) =
      IsTable kind.key (next, rows) × IsKeyed kind.key l × Stands kind.key rows l × All holds l

  shrunk_Ready :
      (a : Row) (l : List Row) (used next : ℕ) (rows : List Row)
      → Ready (a ∷ l) (next, rows)
      → used ≤ kind.quantity a
      → let left = kind.quantity a - used in
        let shrunk = update kind.key (kind.key a) (kind.shrink left) rows in
        let t = insert_part kind a used (find kind.key (kind.key a) shrunk) (next, shrunk) in
        Ready l t × (sum_by w t.1 + used ≡ sum_by w rows)
  unfolding insert_part
  shrunk_Ready a l used next rows h le =
      let left = kind.quantity a - used in
      let shrunk = update kind.key (kind.key a) (kind.shrink left) rows in
      let new = kind.part a next used (kind.shrink left a) in
      let keeps = is.shrink_key left in
      let keyed = IsKeyed-update kind.key (kind.key a) (kind.shrink left) keeps rows h.0.0 in
      let below = Below-update kind.key (kind.key a) (kind.shrink left) keeps next rows h.0.1 in
      let named = is.part_key a next used (kind.shrink left a) in
      rw (find-update_self kind.key (kind.key a) (kind.shrink left) keeps rows a h.2.0) (
        (
          (
            IsKeyed-snoc kind.key shrunk new keyed
                (find-above kind.key next (kind.key new) shrunk below (omega (arith, named))),
            Below-snoc kind.key (next + 1) shrunk new
                (Below-mono kind.key next (next + 1) shrunk (omega arith) below)
                (omega (arith, named)),
          ),
          h.1.1,
          Stands-snoc kind.key shrunk l new
              (Stands-update kind.key (kind.key a) (kind.shrink left) keeps rows l h.1.0 h.2.1),
          h.3.1,
        ),
        ground (
          arith,
          sum_by-snoc w shrunk new,
          sum_by-update kind.key (kind.key a) (kind.shrink left) keeps w rows a h.0.0 h.2.0,
          is.part_weight a next used (kind.shrink left a),
          is.weight a h.3.0,
          is.shrink_weight left a h.3.0,
        ),
      )

  pub settle-Ready :
      (a : Row) (l : List Row) (used : ℕ) (t : ℕ × List Row)
      → Ready (a ∷ l) t
      → used ≤ kind.quantity a
      → Ready l (settle kind a used t) × (sum_by w (settle kind a used t).1 + used ≡ sum_by w t.1)
  unfolding settle
  settle-Ready a l used (next, rows) h le = elim (Bool-cases (kind.quantity a - used == 0)) [
    | inl e ↦ rw e (
      (
        (
          IsKeyed-update kind.key (kind.key a) (kind.close a) (is.close_key a) rows h.0.0,
          Below-update kind.key (kind.key a) (kind.close a) (is.close_key a) next rows h.0.1,
        ),
        h.1.1,
        Stands-update kind.key (kind.key a) (kind.close a) (is.close_key a) rows l h.1.0 h.2.1,
        h.3.1,
      ),
      ground (
        arith,
        sum_by-update kind.key (kind.key a) (kind.close a) (is.close_key a) w rows a h.0.0 h.2.0,
        is.close_weight a a,
        is.weight a h.3.0,
      ),
    )
    | inr e ↦ rw e (shrunk_Ready a l used next rows h le)
  ]

  -- What the loop takes is what it was asked for, up to what the rows hold.
  pub drain-Ready :
      (l : List Row) (n : ℕ) (t : ℕ × List Row)
      → Ready l t
      → IsTable kind.key (drain kind l n t).1
        × ((drain kind l n t).0 ≡ n - sum_by kind.quantity l)
        × (sum_by w (drain kind l n t).1.1 + n ≡ sum_by w t.1 + (drain kind l n t).0)
  unfolding drain sum_by
  drain-Ready [] n t h = (h.0, omega arith, refl)
  drain-Ready (a ∷ l) n t h = elim (Bool-cases (n == 0)) [
    | inl e ↦ rw e (h.0, ground arith, refl)
    | inr e ↦
        let used = min (kind.quantity a) n in
        let step = settle-Ready a l used t h (omega arith) in
        let rest = drain-Ready l (n - used) (settle kind a used t) step.0 in
        rw e (rest.0, omega (arith, rest.1), omega (arith, rest.2, step.1))
  ]
