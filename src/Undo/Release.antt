-- ===== src/Undo/Release.antt =====
-- The undo of a release in backend/app/service.py and the consistency of its reservation.
use mathlib.Core.Path.{subst}
use materials_management_sha.Prelude.{
  ℕ, pos, ◌+◌, ◌≡◌, ◌≢◌, refl, ◌∙◌, sym, ap, true, false, not, Option, none, some, ◌==◌, arith,
  sum_by, Bool-cases, inl, inr, ==_iff, ◌<◌,
}
use materials_management_sha.Text.{Text}
use materials_management_sha.Database.{Db, LogRow, Reservation, released, reserve}
use materials_management_sha.Database.Triples.{After, After-raise_if, After-map}
use materials_management_sha.Database.Table.{find}
use materials_management_sha.Database.Table.Laws.{find-update_ne, find-update_self}
use materials_management_sha.Orders.Frames.{log-SameHoldings}
use materials_management_sha.Reservation.{is_active, get_reservation}
use materials_management_sha.Reservation.Holdings.{
  held, backed, reservation_key, Tables, IsConsistent,
}
use materials_management_sha.Reservation.Drained.{SameHoldings}
use materials_management_sha.Reservation.Settled.{some_inj}
use materials_management_sha.Reservation.Release.{held_same, Tables-same}
use materials_management_sha.Undo.{
  undo_rows, undo_incoming_rows, regain, is_consumed, log_undo, undo_release,
}
use materials_management_sha.Undo.Reopened.{Reopens, reopened, reopened-Reopens}

total_is : (a n : ℕ) → not (a == n) ≡ false → a ≡ n
total_is a n h = (==_iff a n).0 (ground (arith, h))

logged-Reopens :
    (rid q n : ℕ) (s t u : Db) → Reopens rid q n s t → SameHoldings t u → Reopens rid q n s u
logged-Reopens rid q n s t u h same =
    (Tables-same t u same h.0, λ k. held_same k t u same ∙ h.1 k, same.4 ∙ h.2, same.5 ∙ h.3)

undo_release-Reopens :
    (rid log_id item n : ℕ) (note : Option Text) (s : Db) (r : Reservation)
    → Tables s
    → find reservation_key rid s.reservations ≡ some r
    → After (λ _ t. Reopens rid (r.quantity + n) n s t) (undo_release rid log_id item n note s)
unfolding undo_release get_reservation log_undo
undo_release-Reopens rid log_id item n _ s r h found = rw found (
    let q = r.quantity + n in
    let Q : LogRow → Db → Type 0 = λ _ t. Reopens rid q n s t in
    After-raise_if Q (is_consumed r.status) _ _ s λ _.
      let total =
        sum_by (λ a. a.quantity) (undo_rows rid released log_id s)
        + sum_by (λ a. a.quantity) (undo_incoming_rows rid released log_id s) in
      After-raise_if Q (not (total == n)) _ _ s λ fits.
        let t = reopened rid log_id q s in
        After-map (λ _ u. SameHoldings t u) Q _
          (log-SameHoldings reserve item (pos n) none none _ _ (some log_id) t)
          λ row u same.
            logged-Reopens rid q n s t u
              (reopened-Reopens rid log_id q n s h (total_is total n fits)) same)

module _ (rid q n : ℕ) (s t : Db) (r : Reservation)
    (found : find reservation_key rid s.reservations ≡ some r) (h : Reopens rid q n s t) where
  found_now : find reservation_key rid t.reservations ≡ some (regain q r)
  unfolding regain
  found_now =
      ap (find reservation_key rid) h.2
      ∙ find-update_self reservation_key rid (regain q) (λ x. refl) s.reservations r found

  found_elsewhere :
      (k : ℕ)
      → k ≢ rid
      → find reservation_key k t.reservations ≡ find reservation_key k s.reservations
  unfolding regain
  found_elsewhere k ne =
      ap (find reservation_key k) h.2
      ∙ find-update_ne reservation_key rid (regain q) (λ x. refl) k s.reservations ne

  held_now : held rid t ≡ held rid s + n
  held_now = ground (arith, h.1 rid)

  held_elsewhere : (k : ℕ) → (k == rid) ≡ false → held k t ≡ held k s
  held_elsewhere k e = ground (arith, h.1 k, e)

  backed-regain : backed (regain q r) ≡ q
  unfolding backed regain is_active
  backed-regain = refl

live_backed : (r : Reservation) → is_active r.status ≡ true → backed r ≡ r.quantity
unfolding backed
live_backed r h = rw h refl

unequal : (a b : ℕ) → (a == b) ≡ false → a ≢ b
unequal a b h e = ground (arith, h, e)

-- From a consistent database, the undo of a release whose reservation is still active, if it
-- returns, gives the released quantity back to the reservation, in its row and in what is held for
-- it, leaves the stock, and leaves the database consistent.
pub undo_release-IsConsistent :
    (rid log_id item n : ℕ) (note : Option Text) (s : Db) (r : Reservation)
    → IsConsistent s
    → find reservation_key rid s.reservations ≡ some r
    → is_active r.status ≡ true
    → After
        (λ _ t.
          IsConsistent t
          × (held rid t ≡ r.quantity + n)
          × (find reservation_key rid t.reservations ≡ some (regain (r.quantity + n) r))
          × (t.stock ≡ s.stock))
        (undo_release rid log_id item n note s)
unfolding backed
undo_release-IsConsistent rid log_id item n _ s r h found live =
    let q = r.quantity + n in
    After-map (λ _ t. Reopens rid q n s t) _ _
      (undo_release-Reopens rid log_id item n _ s r h.0 found)
      λ row t re.
        let now = found_now rid q n s t r found re in
        let holds : held rid t ≡ q =
          omega (arith, held_now rid q n s t r found re, h.1 rid r found, live_backed r live) in
        (
          (
            re.0,
            λ k x e. elim (Bool-cases (k == rid)) [
              | inl same ↦
                  let at_rid =
                    subst (λ i. find reservation_key i t.reservations ≡ some x)
                      ((==_iff k rid).0 same) e in
                  rw ((==_iff k rid).0 same, some_inj (sym at_rid ∙ now))
                    (holds ∙ sym (backed-regain rid q n s t r found re))
              | inr other ↦
                  held_elsewhere rid q n s t r found re k other
                  ∙ h.1 k x
                      (sym (found_elsewhere rid q n s t r found re k (unequal k rid other)) ∙ e)
            ],
          ),
          holds,
          now,
          re.3,
        )

ended_backed : (r : Reservation) → is_active r.status ≡ false → backed r ≡ 0
unfolding backed
ended_backed r h = rw h refl

-- From a consistent database, the undo of a release whose reservation has ended, if it returns, makes
-- the reservation active with its old quantity and the released one added up, but holds only the
-- released one for it: where the old quantity is positive, the database is not consistent any more.
pub undo_release-breaks :
    (rid log_id item n : ℕ) (note : Option Text) (s : Db) (r : Reservation)
    → IsConsistent s
    → find reservation_key rid s.reservations ≡ some r
    → is_active r.status ≡ false
    → 0 < r.quantity
    → After
        (λ _ t.
          (held rid t ≡ n)
          × (find reservation_key rid t.reservations ≡ some (regain (r.quantity + n) r))
          × ¬ IsConsistent t)
        (undo_release rid log_id item n note s)
undo_release-breaks rid log_id item n _ s r h found ended p =
    let q = r.quantity + n in
    After-map (λ _ t. Reopens rid q n s t) _ _
      (undo_release-Reopens rid log_id item n _ s r h.0 found)
      λ row t re.
        let now = found_now rid q n s t r found re in
        let holds : held rid t ≡ n =
          omega (arith, held_now rid q n s t r found re, h.1 rid r found, ended_backed r ended) in
        (
          holds,
          now,
          λ consistent. omega (
            arith,
            p,
            holds,
            consistent.1 rid (regain q r) now,
            backed-regain rid q n s t r found re,
          ),
        )
