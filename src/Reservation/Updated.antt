-- ===== src/Reservation/Updated.antt =====
-- What `update_reservation` of backend/app/service.py changes.
use mathlib.Core.Path.{subst}
use materials_management_sha.Prelude.{
  ℕ, ◌≡◌, ◌≢◌, refl, ◌∙◌, sym, true, false, not, Option, some, ◌==◌, arith, Bool-cases, inl, inr,
  ==_iff, none,
}
use materials_management_sha.Text.{Text}
use materials_management_sha.Database.{Db, Reservation}
use materials_management_sha.Database.Triples.{After, After-reader, After-raise_if}
use materials_management_sha.Database.Table.{find, update}
use materials_management_sha.Database.Table.Laws.{find-update_ne, find-update_self, IsKeyed-update}
use materials_management_sha.Reservation.{is_active, get_reservation}
use materials_management_sha.Reservation.Holdings.{held, backed, reservation_key, IsConsistent}
use materials_management_sha.Reservation.Settled.{some_inj}
use materials_management_sha.Reservation.Release.{get_reservation-After}
use materials_management_sha.Reservation.Create.{coalesce, update_reservation}

abbrev edited : Option Text → Option ℕ → Option Text → Reservation → Reservation
edited purpose deadline text r = record r {
  purpose = coalesce purpose r.purpose;
  deadline = coalesce deadline r.deadline;
  note = coalesce text r.note;
}

-- A column that is given is replaced, and one that is not stays.
unfoldable pub Replaces : {A : Type 0} → Option A → Option A → Option A → Type 0
Replaces none before after = (after ≡ before)
Replaces (some given) before after = (after ≡ some given)

coalesce-Replaces :
    {A : Type 0} (given before : Option A) → Replaces given before (coalesce given before)
unfolding Replaces coalesce
coalesce-Replaces none before = refl
coalesce-Replaces (some a) before = refl

-- The three columns that can be given, and the others as they were.
abbrev pub IsEdit : Option Text → Option ℕ → Option Text → Reservation → Reservation → Type 0
IsEdit purpose deadline text r r' =
    Replaces purpose r.purpose r'.purpose
    × Replaces deadline r.deadline r'.deadline
    × Replaces text r.note r'.note
    × (r'.reservation_id ≡ r.reservation_id)
    × (r'.item_id ≡ r.item_id)
    × (r'.quantity ≡ r.quantity)
    × (r'.project_id ≡ r.project_id)
    × (r'.status ≡ r.status)
    × (r'.released_at ≡ r.released_at)

edited-IsEdit :
    (purpose : Option Text) (deadline : Option ℕ) (text : Option Text) (r : Reservation)
    → IsEdit purpose deadline text r (edited purpose deadline text r)
edited-IsEdit purpose deadline text r = (
  coalesce-Replaces purpose r.purpose,
  coalesce-Replaces deadline r.deadline,
  coalesce-Replaces text r.note,
  refl,
  refl,
  refl,
  refl,
  refl,
  refl,
)

-- What an update has done: it was of an active reservation, of which it returns the new row, and
-- every other reservation, what is held, and every other table are as they were.
abbrev pub Edited : ℕ → Option Text → Option ℕ → Option Text → Db → Reservation → Db → Type 0
Edited id purpose deadline text s r' t =
    ((r : Reservation) × ((find reservation_key id s.reservations ≡ some r)
        × (is_active r.status ≡ true)
        × IsEdit purpose deadline text r r'))
    × (find reservation_key id t.reservations ≡ some r')
    × ((k : ℕ)
        → k ≢ id
        → find reservation_key k t.reservations ≡ find reservation_key k s.reservations)
    × ((k : ℕ) → held k t ≡ held k s)
    × (t ≡ record s { reservations = t.reservations })

unequal : (a b : ℕ) → (a == b) ≡ false → a ≢ b
unequal a b h e = ground (arith, h, e)

live_is : (r : Reservation) → not (is_active r.status) ≡ false → is_active r.status ≡ true
live_is r h = ground (arith, h)

module _ (id : ℕ) (purpose : Option Text) (deadline : Option ℕ) (text : Option Text) (s : Db) where
  abbrev after_edit : Db
  after_edit = record s {
    reservations = update reservation_key id (edited purpose deadline text) s.reservations;
  }

  after_edit-Edited :
      (r : Reservation)
      → find reservation_key id s.reservations ≡ some r
      → is_active r.status ≡ true
      → Edited id purpose deadline text s (edited purpose deadline text r) after_edit
  unfolding held
  after_edit-Edited r found live = (
    (r, (found, live, edited-IsEdit purpose deadline text r)),
    find-update_self reservation_key id (edited purpose deadline text) (λ x. refl) s.reservations r
        found,
    λ k ne.
        find-update_ne reservation_key id (edited purpose deadline text) (λ x. refl) k
          s.reservations ne,
    λ k. refl,
    refl,
  )

  edited-backed : (r : Reservation) → backed (edited purpose deadline text r) ≡ backed r
  unfolding backed
  edited-backed r = refl

  after_edit-IsConsistent :
      (r : Reservation)
      → IsConsistent s
      → find reservation_key id s.reservations ≡ some r
      → is_active r.status ≡ true
      → IsConsistent after_edit
  unfolding held
  after_edit-IsConsistent r h found live =
      let done = after_edit-Edited r found live in
      (
        (
          h.0.0,
          h.0.1,
          IsKeyed-update reservation_key id (edited purpose deadline text) (λ x. refl)
              s.reservations h.0.2,
        ),
        λ k x e. elim (Bool-cases (k == id)) [
          | inl same ↦
              let k_is = (==_iff k id).0 same in
              let at_id =
                subst (λ i. find reservation_key i after_edit.reservations ≡ some x) k_is e in
              rw (k_is, some_inj (sym at_id ∙ done.1)) (h.1 id r found ∙ sym (edited-backed r))
          | inr other ↦ h.1 k x (sym (done.2 k (unequal k id other)) ∙ e)
        ],
      )

-- From a consistent database, an update that returns was of an active reservation, has replaced its
-- purpose, deadline and note where they were given and kept them where they were not, keeps its other
-- columns, every other reservation and all other tables, and leaves a consistent database.
pub update_reservation-Edited :
    (id : ℕ) (purpose : Option Text) (deadline : Option ℕ) (text : Option Text) (s : Db)
    → IsConsistent s
    → After
        (λ r' t. Edited id purpose deadline text s r' t × IsConsistent t)
        (update_reservation id purpose deadline text s)
unfolding update_reservation get_reservation
update_reservation-Edited id purpose deadline text s h =
    let Q : Reservation → Db → Type 0 =
      λ r' t. Edited id purpose deadline text s r' t × IsConsistent t in
    After-reader (λ r. find reservation_key id s.reservations ≡ some r) Q _ _ s
      (get_reservation-After id s)
      λ r found. After-raise_if Q (not (is_active r.status)) _ _ s λ ended.
        let done = after_edit-Edited id purpose deadline text s r found (live_is r ended) in
        rw done.1
          (done, after_edit-IsConsistent id purpose deadline text s r h found (live_is r ended))
