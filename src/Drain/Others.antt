-- ===== src/Drain/Others.antt =====
-- The loop over allocation rows: sums over rows that it does not touch.
use materials_management_sha.Prelude.{
  ℕ, ◌-◌, ◌≡◌, refl, ◌∙◌, min, List, [], ◌∷◌, ◌==◌, arith, sum_by, sum_by-snoc, Bool-cases, inl,
  inr,
}
use materials_management_sha.Database.Table.{update}
use materials_management_sha.Database.Table.Laws.{sum_by-update, find-update_self}
use materials_management_sha.Drain.{Kind, settle, drain, insert_part}
use materials_management_sha.Drain.Laws.{IsKind, Ready, settle-Ready}

pub record IsOther {Row : Type 0} (kind : Kind Row) (v : Row → ℕ) (holds : Row → Type 0)
    : Type 0 where
  pub held : (r : Row) → holds r → v r ≡ 0
  pub closed : (a r : Row) → holds r → v (kind.close a r) ≡ 0
  pub shrunk : (n : ℕ) (r : Row) → holds r → v (kind.shrink n r) ≡ 0
  pub parted :
      (a : Row) (n used m : ℕ) (r : Row) → holds r → v (kind.part a n used (kind.shrink m r)) ≡ 0

module _ {Row : Type 0} (kind : Kind Row) (w : Row → ℕ) (holds : Row → Type 0)
    (is : IsKind kind w holds) (v : Row → ℕ) (other : IsOther kind v holds) where
  pub settle-other :
      (a : Row) (l : List Row) (used : ℕ) (t : ℕ × List Row)
      → Ready kind w holds is (a ∷ l) t
      → sum_by v (settle kind a used t).1 ≡ sum_by v t.1
  unfolding settle insert_part
  settle-other a l used (next, rows) h = elim (Bool-cases (kind.quantity a - used == 0)) [
    | inl e ↦ rw e (
        ground (
          arith,
          sum_by-update kind.key (kind.key a) (kind.close a) (is.close_key a) v rows a h.0.0 h.2.0,
          other.closed a a h.3.0,
          other.held a h.3.0,
        ))
    | inr e ↦
        let left = kind.quantity a - used in
        let keeps = is.shrink_key left in
        let shrunk = update kind.key (kind.key a) (kind.shrink left) rows in
        rw e (
          rw (find-update_self kind.key (kind.key a) (kind.shrink left) keeps rows a h.2.0) (
            ground (
              arith,
              sum_by-snoc v shrunk (kind.part a next used (kind.shrink left a)),
              sum_by-update kind.key (kind.key a) (kind.shrink left) keeps v rows a h.0.0 h.2.0,
              other.shrunk left a h.3.0,
              other.parted a next used left a h.3.0,
              other.held a h.3.0,
            )))
  ]

  pub drain-other :
      (l : List Row) (n : ℕ) (t : ℕ × List Row)
      → Ready kind w holds is l t
      → sum_by v (drain kind l n t).1.1 ≡ sum_by v t.1
  unfolding drain
  drain-other [] n t h = refl
  drain-other (a ∷ l) n t h = elim (Bool-cases (n == 0)) [
    | inl e ↦ rw e
    | inr e ↦
        let used = min (kind.quantity a) n in
        rw e (
          drain-other l (n - used) (settle kind a used t)
            (settle-Ready kind w holds is a l used t h (omega arith)).0
          ∙ settle-other a l used t h)
  ]
