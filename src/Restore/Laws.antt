-- ===== src/Restore/Laws.antt =====
-- What the reviving of closed allocation rows does to a table, and to the sum of what is held.
use materials_management_sha.Drain.Laws.{All, IsTable}
use materials_management_sha.Database.Table.Deletes.{
  sum_by-delete, IsKeyed-delete, Below-delete, Stands-delete,
}
use materials_management_sha.Database.Table.Laws.{
  Stands, Below-update, IsKeyed-update, sum_by-update, Stands-update, find-update_ne,
}
use mathlib.Core.Path.{subst}
use materials_management_sha.Prelude.{
  ℕ, ◌≡◌, ◌≢◌, Bool, true, none, some, List, [], ◌∷◌, arith, if◌then◌else◌, sum_by, ◌∙◌, sym, ap,
  Option-cases, inl, inr, ◌+◌,
}
use materials_management_sha.Database.Table.{find, IsKeyed, update}
use materials_management_sha.Restore.{Revival, first, restore_onto, restore_row, restore}

-- What a quantity adds to a weight: all of it, or nothing.
abbrev pub share : Bool → ℕ → ℕ
share own n = if own then n else 0

-- What a kind of row must do, for the weight of the reservation itself or of another one.
pub record IsRevival {Row : Type 0} (kind : Revival Row) (w : Row → ℕ) (own : Bool)
    (Closed : Row → Type 0) : Type 0 where
  pub revive_key : (a r : Row) → kind.key (kind.revive a r) ≡ kind.key r
  pub grow_key : (n : ℕ) (r : Row) → kind.key (kind.grow n r) ≡ kind.key r
  pub closed_weight : (a : Row) → Closed a → w a ≡ 0
  pub revive_weight : (a : Row) → Closed a → w (kind.revive a a) ≡ share own (kind.quantity a)
  pub match_weight :
      (a r : Row) → Closed a → kind.matches a r ≡ true → w r ≡ share own (kind.quantity r)
  pub grow_weight :
      (a r : Row) (n : ℕ) → Closed a → kind.matches a r ≡ true → w (kind.grow n r) ≡ share own n
  pub match_open : (a r : Row) → kind.matches a r ≡ true → Closed r → ⊥

same_row : {Row : Type 0} {a b : Row} → some a ≡ some b → a ≡ b
same_row h = cc

module _ {Row : Type 0} (key : Row → ℕ) (p : Row → Bool) where
  first-none :
      (k : ℕ) (rows : List Row) (r : Row)
      → find key k rows ≡ none
      → first p rows ≡ some r
      → key r ≢ k
  unfolding find first
  first-none k [] r h e = cc
  first-none k (x ∷ rows) r h e = ground (arith, first-none k rows r)

  first-found :
      (rows : List Row) (r : Row)
      → IsKeyed key rows
      → first p rows ≡ some r
      → (find key (key r) rows ≡ some r) × (p r ≡ true)
  unfolding find first
  first-found [] r h e = cc
  first-found (x ∷ rows) r h e =
      ground (arith, e, h, first-found rows r h.1, first-none (key x) rows r h.0)

module _ {Row : Type 0} (kind : Revival Row) (w : Row → ℕ) (own : Bool) (Closed : Row → Type 0)
    (is : IsRevival kind w own Closed) where
  -- The closed rows that are still to be revived stand in the table.
  abbrev pub Revivable : List Row → List Row → Type 0
  Revivable l rows = IsKeyed kind.key l × Stands kind.key rows l × All Closed l

  -- A row that other rows can join is none of the closed ones.
  apart :
      (a r b : Row) (rows : List Row)
      → find kind.key (kind.key r) rows ≡ some r
      → kind.matches a r ≡ true
      → find kind.key (kind.key b) rows ≡ some b
      → Closed b
      → kind.key b ≢ kind.key r
  apart a r b rows at_r matched at_b closed e =
      let b_is : b ≡ r = same_row (sym at_b ∙ (ap (λ k. find kind.key k rows) e ∙ at_r)) in
      is.match_open a r matched (subst Closed b_is closed)

  Stands-grow :
      (a r : Row) (n : ℕ) (rows l : List Row)
      → find kind.key (kind.key r) rows ≡ some r
      → kind.matches a r ≡ true
      → Stands kind.key rows l
      → All Closed l
      → Stands kind.key (update kind.key (kind.key r) (kind.grow n) rows) l
  Stands-grow a r n rows [] at_r matched s c = tt
  Stands-grow a r n rows (b ∷ l) at_r matched s c = (
    find-update_ne kind.key (kind.key r) (kind.grow n) (is.grow_key n) (kind.key b) rows
          (apart a r b rows at_r matched s.0 c.0)
        ∙ s.0,
    Stands-grow a r n rows l at_r matched s.1 c.1,
  )

  -- What a step leaves: a table, the rows to come, and the weight with what was revived.
  abbrev Revived : ℕ → Row → List Row → List Row → List Row → Type 0
  Revived next a l rows rows' =
      IsTable kind.key (next, rows')
      × Stands kind.key rows' l
      × (sum_by w rows' ≡ sum_by w rows + share own (kind.quantity a))

  revive-Revived :
      (next : ℕ) (a : Row) (l rows : List Row)
      → IsTable kind.key (next, rows)
      → Revivable (a ∷ l) rows
      → Revived next a l rows (restore_onto kind a none rows)
  unfolding restore_onto
  revive-Revived next a l rows t h =
      let k = kind.key a in
      let f = kind.revive a in
      let keeps = is.revive_key a in
      (
        (IsKeyed-update kind.key k f keeps rows t.0, Below-update kind.key k f keeps next rows t.1),
        Stands-update kind.key k f keeps rows l h.0.0 h.1.1,
        omega (
          arith,
          sum_by-update kind.key k f keeps w rows a t.0 h.1.0,
          is.closed_weight a h.2.0,
          is.revive_weight a h.2.0,
        ),
      )

  share-add : (n m : ℕ) → share own (n + m) ≡ share own n + share own m
  share-add n m = ground arith

  join-Revived :
      (next : ℕ) (a r : Row) (l rows : List Row)
      → IsTable kind.key (next, rows)
      → Revivable (a ∷ l) rows
      → find kind.key (kind.key r) rows ≡ some r
      → kind.matches a r ≡ true
      → Revived next a l rows (restore_onto kind a (some r) rows)
  unfolding restore_onto
  join-Revived next a r l rows t h at_r matched =
      let n = kind.quantity r + kind.quantity a in
      let f = kind.grow n in
      let keeps = is.grow_key n in
      let grown = update kind.key (kind.key r) f rows in
      let keyed = IsKeyed-update kind.key (kind.key r) f keeps rows t.0 in
      let below = Below-update kind.key (kind.key r) f keeps next rows t.1 in
      let stand = Stands-grow a r n rows (a ∷ l) at_r matched h.1 h.2 in
      (
        (
          IsKeyed-delete kind.key (kind.key a) grown keyed,
          Below-delete kind.key (kind.key a) next grown below,
        ),
        Stands-delete kind.key (kind.key a) grown l h.0.0 stand.1,
        omega (
          arith,
          sum_by-update kind.key (kind.key r) f keeps w rows r t.0 at_r,
          sum_by-delete kind.key (kind.key a) w grown a keyed stand.0,
          is.closed_weight a h.2.0,
          is.match_weight a r h.2.0 matched,
          is.grow_weight a r n h.2.0 matched,
          share-add (kind.quantity r) (kind.quantity a),
        ),
      )

  step-Revived :
      (next : ℕ) (a : Row) (l rows : List Row)
      → IsTable kind.key (next, rows)
      → Revivable (a ∷ l) rows
      → Revived next a l rows (restore_row kind a rows)
  unfolding restore_row
  step-Revived next a l rows t h = elim (Option-cases (first (kind.matches a) rows)) [
    | inl nothing ↦ rw nothing (revive-Revived next a l rows t h)
    | inr (r, e) ↦
        let found = first-found kind.key (kind.matches a) rows r t.0 e in
        rw e (join-Revived next a r l rows t h found.0 found.1)
  ]

  -- Reviving rows keeps the table a table, and adds their quantities to the weight of their own
  -- reservation and nothing to that of another.
  pub restore-Revived :
      (next : ℕ) (l rows : List Row)
      → IsTable kind.key (next, rows)
      → Revivable l rows
      → IsTable kind.key (next, restore kind l rows)
        × (sum_by w (restore kind l rows) ≡ sum_by w rows + share own (sum_by kind.quantity l))
  unfolding restore sum_by
  restore-Revived next [] rows t h = (t, ground arith)
  restore-Revived next (a ∷ l) rows t h =
      let step = step-Revived next a l rows t h in
      let rest = restore-Revived next l (restore_row kind a rows) step.0 (h.0.1, step.1, h.2.1) in
      (rest.0, omega (arith, rest.1, step.2, share-add (kind.quantity a) (sum_by kind.quantity l)))
