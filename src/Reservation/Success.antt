-- ===== src/Reservation/Success.antt =====
-- The conditions of `release_reservation` of backend/app/service.py.
use materials_management_sha.Prelude.{
  ℕ, ◌+◌, ◌-◌, ◌≤◌, ◌<◌, ◌≡◌, refl, sym, true, false, Option, none, some, arith, ltb, ℤ, pos,
  sum_by, sum_by-keep,
}
use materials_management_sha.Text.{Text, codes}
use materials_management_sha.Database.{
  Db, Operation, reserve, Reservation, released, Result, ok, err, ◌>>=◌, ◌>>◌,
}
use materials_management_sha.Database.Triples.{After, Returns, Returns-continue, Returns-raise_if}
use materials_management_sha.Database.Table.{find}
use materials_management_sha.Database.Table.Laws.{find-update_self}
use materials_management_sha.Stock.{has_item, is_positive}
use materials_management_sha.Movement.{log_transaction, require_positive}
use materials_management_sha.Reservation.{
  is_active, holds_stock, holds_incoming, active_allocations, active_incoming, stock_kind,
  incoming_kind, get_reservation, requested, set_batch_id, log_event, drain_stock, drain_incoming,
  shrink_reservation, finish_reservation, release_reservation,
}
use materials_management_sha.Reservation.Holdings.{
  held, backed, stock_weight, incoming_weight, reservation_key, IsConsistent,
}
use materials_management_sha.Reservation.Drained.{SameHoldings}
use materials_management_sha.Reservation.Settled.{Asked, Settled, shrink-key}
use materials_management_sha.Reservation.Release.{release_reservation-Settled}

abbrev pub Succeeds : {A : Type 0} → Result (A × Db) → Type 0
Succeeds x = Returns (λ _ _. Unit {0}) x

pub both :
    {A : Type 0} (P : A → Db → Type 0) (x : Result (A × Db)) → After P x → Succeeds x → Returns P x
both P (ok (a, s)) h k = h
both P (err e) h k = absurd k

pub positive : (n : ℕ) → 0 < n → is_positive (pos n) ≡ true
unfolding is_positive
positive n h = ground arith

requested-Asked :
    (quantity : Option ℤ) (whole n : ℕ) (s : Db)
    → Asked quantity whole n
    → Returns (λ m s'. (s' ≡ s) × (m ≡ n)) (requested quantity whole s)
unfolding requested require_positive
requested-Asked none whole n s h = (refl, sym h)
requested-Asked (some q) whole n s h = rw h.0 (rw (positive n h.1) (refl, refl))

-- What is active for a reservation is what is held for it.
active_sum :
    (rid : ℕ) (s : Db)
    → sum_by (λ a. a.quantity) (active_allocations rid s)
        + sum_by (λ a. a.quantity) (active_incoming rid s)
      ≡ held rid s
unfolding active_allocations active_incoming held stock_weight incoming_weight
active_sum rid s = omega (
  arith,
  sum_by-keep (λ a. a.quantity) (holds_stock rid) s.allocations,
  sum_by-keep (λ a. a.quantity) (holds_incoming rid) s.incoming,
)

enough :
    (rid n : ℕ) (s : Db) (r : Reservation)
    → IsConsistent s
    → find reservation_key rid s.reservations ≡ some r
    → is_active r.status ≡ true
    → n ≤ r.quantity
    → n
      ≤ sum_by (λ a. a.quantity) (active_allocations rid s)
        + sum_by (λ a. a.quantity) (active_incoming rid s)
unfolding backed
enough rid n s r h found live le = ground (arith, active_sum rid s, h.1 rid r found)

log_event-Returns :
    (op : Operation) (verb : Text) (r : Reservation) (n : ℕ) (note : Option Text) (s : Db)
    → 0 < n
    → has_item r.item_id s.items ≡ true
    → Returns (λ _ s'. SameHoldings s s') (log_event op verb r n note s)
unfolding log_event log_transaction set_batch_id
log_event-Returns op verb r n _ s some_asked known =
    rw (positive n some_asked, known) (refl, refl, refl, refl, refl, refl, refl)

-- The loops and the last statements cannot fail.
rest_Succeeds :
    (rid ts log_id n : ℕ) (note : Option Text) (s t : Db) (r : Reservation)
    → find reservation_key rid s.reservations ≡ some r
    → SameHoldings s t
    → Succeeds (
        (drain_stock (stock_kind released ts note log_id) (active_allocations rid s) n >>= λ rest.
        drain_incoming (incoming_kind released ts note log_id) (active_incoming rid s) rest
        >> (finish_reservation released ts rid (r.quantity - n) >> get_reservation rid))
          t)
unfolding drain_stock drain_incoming finish_reservation get_reservation
rest_Succeeds rid ts log_id n _ s t r found same =
    rw
      (
        same.4,
        find-update_self reservation_key rid (shrink_reservation released ts (r.quantity - n))
            (shrink-key released ts (r.quantity - n)) s.reservations r found,
      )
      tt

not_below : (a n : ℕ) → n ≤ a → ltb a n ≡ false
not_below a n h = ground arith

release_Succeeds :
    (rid n : ℕ) (quantity : Option ℤ) (note : Option Text) (s : Db) (r : Reservation)
    → IsConsistent s
    → find reservation_key rid s.reservations ≡ some r
    → is_active r.status ≡ true
    → Asked quantity r.quantity n
    → 0 < n
    → n ≤ r.quantity
    → has_item r.item_id s.items ≡ true
    → Succeeds (release_reservation rid quantity note s)
unfolding release_reservation get_reservation
release_Succeeds rid n quantity note s r h found live asked some_asked le known = rw found (
    rw live (
      Returns-continue (λ m s'. (s' ≡ s) × (m ≡ n)) (λ _ _. Unit {0}) _ _
        (requested-Asked quantity r.quantity n s asked)
        λ m s' same.
          rw (same.0, same.1)
            (Returns-raise_if (λ _ _. Unit {0}) (ltb r.quantity n) _ _ s (ground arith)
              (Returns-raise_if (λ _ _. Unit {0})
                (ltb
                  (sum_by (λ a. a.quantity) (active_allocations rid s)
                    + sum_by (λ a. a.quantity) (active_incoming rid s))
                  n)
                _ _ s (not_below _ n (enough rid n s r h found live le))
                (Returns-continue (λ _ t. SameHoldings s t) (λ _ _. Unit {0}) _ _
                  (log_event-Returns reserve (codes "release") r n note s some_asked known)
                  λ log t after.
                    rest_Succeeds rid log.timestamp log.log_id n note s t r found after)))))

-- From a consistent database, the release of an active reservation of a known item succeeds for
-- every positive quantity up to its own, or for the whole: what is held for it is that much less
-- and nothing else is, it shrinks, or ends if nothing remains, the stock is as it was, and the
-- database is consistent.
pub release_reservation-Returns :
    (rid n : ℕ) (quantity : Option ℤ) (note : Option Text) (s : Db) (r : Reservation)
    → IsConsistent s
    → find reservation_key rid s.reservations ≡ some r
    → is_active r.status ≡ true
    → Asked quantity r.quantity n
    → 0 < n
    → n ≤ r.quantity
    → has_item r.item_id s.items ≡ true
    → Returns
        (λ r' s'. Settled released rid quantity s r' s' × (s'.stock ≡ s.stock) × IsConsistent s')
        (release_reservation rid quantity note s)
release_reservation-Returns rid n quantity note s r h found live asked some_asked le known =
    both _ _ (release_reservation-Settled rid quantity note s h)
      (release_Succeeds rid n quantity note s r h found live asked some_asked le known)
