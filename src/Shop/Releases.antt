-- ===== src/Shop/Releases.antt =====
-- The shop after a release of a part of its reservation, and after a release of all of it.
use materials_management_sha.Prelude.{
  ℕ, ◌≡◌, refl, some, [], ◌∷◌, ◌==◌, arith, sum_by, Bool-cases, inl, inr, ==_iff,
}
use materials_management_sha.Text.{codes}
use materials_management_sha.Database.{Db, Reservation, released}
use materials_management_sha.Database.Table.{find}
use materials_management_sha.Reservation.{holds_stock, holds_incoming, is_active}
use materials_management_sha.Reservation.Holdings.{
  IsConsistent, reservation_key, held, backed, stock_weight, incoming_weight,
}
use materials_management_sha.Shop.{shop, reservation, allocation}

-- The shop has one reservation.
only_reservation :
    (s : Db) (r : Reservation)
    → s.reservations ≡ r ∷ []
    → held r.reservation_id s ≡ backed r
    → (k : ℕ) (x : Reservation) → find reservation_key k s.reservations ≡ some x
    → held k s ≡ backed x
unfolding find
only_reservation s r one h k x e = elim (Bool-cases (r.reservation_id == k)) [
  | inl same ↦
      let k_is : r.reservation_id ≡ k = (==_iff r.reservation_id k).0 same in
      let x_is : r ≡ x = ground (arith, one, e, same) in rw (← k_is, ← x_is) h
  | inr other ↦ absurd (ground (arith, one, e, other))
]

-- Two units of the reservation were released by transaction 9.
abbrev pub partly_released : Db
partly_released = record shop {
  allocations =
      allocation
      ∷ record allocation {
        allocation_id = 2;
        quantity = 2;
        status = released;
        released_at = some 95;
        note = some (codes "urgent [[tx:9]]");
      }
      ∷ [];
  next_allocation = 3;
}

pub partly_released-IsConsistent : IsConsistent partly_released
unfolding find held backed sum_by stock_weight incoming_weight holds_stock holds_incoming is_active
partly_released-IsConsistent = (
  (
    ((refl, (refl, tt)), (omega arith, (omega arith, tt))),
    ((refl, tt), (omega arith, tt)),
    (refl, tt),
  ),
  only_reservation partly_released reservation refl refl,
)

-- All of the reservation, five units in stock, was released by transaction 9.
abbrev pub wholly_released : Db
wholly_released = record shop {
  reservations = record reservation { status = released; released_at = some 95 } ∷ [];
  allocations =
      record allocation {
        quantity = 5;
        status = released;
        released_at = some 95;
        note = some (codes "[[tx:9]]");
      }
      ∷ [];
  incoming = [];
}

pub wholly_released-IsConsistent : IsConsistent wholly_released
unfolding find held backed sum_by stock_weight incoming_weight holds_stock holds_incoming is_active
wholly_released-IsConsistent = (
  (((refl, tt), (omega arith, tt)), (tt, tt), (refl, tt)),
  only_reservation wholly_released (record reservation { status = released; released_at = some 95 })
      refl refl,
)
