-- ===== src/Reservation/Release.antt =====
-- `release_reservation` of backend/app/service.py, where it returns.
use materials_management_sha.Prelude.{
  ℕ, ◌+◌, ◌-◌, ◌≤◌, ◌≡◌, refl, ◌∙◌, ap, Bool, true, false, not, Option, none, some, arith, ltb,
  Option-cases, inl, inr, ℤ, sum_by,
}
use materials_management_sha.Text.{Text, codes}
use materials_management_sha.Database.{Db, reserve, Reservation, Status, released, ◌>>=◌, ◌>>◌}
use materials_management_sha.Database.Triples.{
  After, After-continue, After-reader, After-raise_if, After-map,
}
use materials_management_sha.Database.Table.{find, update}
use materials_management_sha.Database.Table.Laws.{IsKeyed-update, find-update_self}
use materials_management_sha.Movement.Journal.{require_positive-After}
use materials_management_sha.Reservation.{
  is_active, active_allocations, active_incoming, stock_kind, incoming_kind, get_reservation,
  requested, drain_stock, drain_incoming, shrink_reservation, finish_reservation,
  release_reservation,
}
use materials_management_sha.Reservation.Holdings.{held, reservation_key, Tables, IsConsistent}
use materials_management_sha.Reservation.Drained.{
  SameHoldings, log_event-SameHoldings, Drained, drains-Drained,
}
use materials_management_sha.Reservation.Settled.{Asked, Settled, Settled-IsConsistent, shrink-key}

pub get_reservation-After :
    (rid : ℕ) (s : Db)
    → After
        (λ r s'. (s' ≡ s) × (find reservation_key rid s.reservations ≡ some r))
        (get_reservation rid s)
unfolding get_reservation
get_reservation-After rid s = elim (Option-cases (find reservation_key rid s.reservations)) [
  | inl missing ↦ rw missing tt
  | inr (r, e) ↦ rw e (refl, refl)
]

pub requested-After :
    (quantity : Option ℤ) (whole : ℕ) (s : Db)
    → After (λ n s'. (s' ≡ s) × Asked quantity whole n) (requested quantity whole s)
unfolding requested
requested-After none whole s = (refl, refl)
requested-After (some q) whole s = require_positive-After q s

-- The end of both functions: the reservation is updated and read again.
pub finish-After :
    (closed : Status) (ts rid rest : ℕ) (s : Db) {r : Reservation}
    → find reservation_key rid s.reservations ≡ some r
    → After
        (λ r' s'.
          (s' ≡ record s {
            reservations =
                update reservation_key rid (shrink_reservation closed ts rest) s.reservations;
          })
          × (r' ≡ shrink_reservation closed ts rest r))
        ((finish_reservation closed ts rid rest >> get_reservation rid) s)
unfolding finish_reservation get_reservation
finish-After closed ts rid rest s {r} e =
    rw
      (find-update_self reservation_key rid (shrink_reservation closed ts rest)
        (shrink-key closed ts rest) s.reservations r e)
      (refl, refl)

-- What was read before the log row was written is still there.
pub held_same : (k : ℕ) (s t : Db) → SameHoldings s t → held k t ≡ held k s
unfolding held
held_same k s t same = rw (same.0, same.2)

pub Tables-same : (s t : Db) → SameHoldings s t → Tables s → Tables t
Tables-same s t same h = rw (same.0, same.1, same.2, same.3, same.4) h

pub active_same :
    (rid : ℕ) (s t : Db) → SameHoldings s t → active_allocations rid s ≡ active_allocations rid t
unfolding active_allocations
active_same rid s t same = rw same.0

incoming_same :
    (rid : ℕ) (s t : Db) → SameHoldings s t → active_incoming rid s ≡ active_incoming rid t
unfolding active_incoming
incoming_same rid s t same = rw same.2

abbrev pub Found : ℕ → Option ℤ → Db → Reservation → ℕ → Type 0
Found rid quantity s r n =
    (find reservation_key rid s.reservations ≡ some r)
    × (is_active r.status ≡ true)
    × Asked quantity r.quantity n
    × (n ≤ r.quantity)

-- From the loops to the end: what they leave is settled by the last update.
pub finish-Settled :
    (closed : Status) (ts rid n : ℕ) (quantity : Option ℤ) (s t u : Db) (r : Reservation)
    → IsConsistent s
    → SameHoldings s t
    → Drained rid n t u
    → Found rid quantity s r n
    → After
        (λ r' s'. Settled closed rid quantity s r' s' × (s'.stock ≡ u.stock))
        ((finish_reservation closed ts rid (r.quantity - n) >> get_reservation rid) u)
unfolding held
finish-Settled closed ts rid n quantity s t u r h same drained found =
    let rows : u.reservations ≡ s.reservations = drained.4 ∙ same.4 in
    let f = shrink_reservation closed ts (r.quantity - n) in
    After-map
      (λ r' s'.
        (s' ≡ record u { reservations = update reservation_key rid f u.reservations }) × (r' ≡ f r))
      (λ r' s'. Settled closed rid quantity s r' s' × (s'.stock ≡ u.stock)) _
      (finish-After closed ts rid (r.quantity - n) u (rw rows found.0))
      λ r' s' done. (
        (
          r,
          n,
          ts,
          found.0,
          found.1,
          found.2,
          found.3,
          rw done.0 (
            drained.0,
            drained.1,
            IsKeyed-update reservation_key rid f (shrink-key closed ts (r.quantity - n))
                u.reservations (rw rows h.0.2),
          ),
          rw done.0 (drained.2 ∙ held_same rid s t same),
          λ k ne. rw done.0 (drained.3 k ne ∙ held_same k s t same),
          rw done.0 (ap (update reservation_key rid f) rows),
          done.1,
        ),
        rw done.0 refl,
      )

ended : is_active released ≡ false
unfolding is_active
ended = refl

-- After the guards and the log row.
release_rest :
    (rid ts log_id n : ℕ) (note : Option Text) (quantity : Option ℤ) (s t : Db) (r : Reservation)
    → IsConsistent s
    → SameHoldings s t
    → Found rid quantity s r n
    → n
      ≤ sum_by (λ a. a.quantity) (active_allocations rid s)
        + sum_by (λ a. a.quantity) (active_incoming rid s)
    → After
        (λ r' s'. Settled released rid quantity s r' s' × (s'.stock ≡ t.stock))
        ((drain_stock (stock_kind released ts note log_id) (active_allocations rid s) n >>= λ rest.
            drain_incoming (incoming_kind released ts note log_id) (active_incoming rid s) rest
            >> (finish_reservation released ts rid (r.quantity - n) >> get_reservation rid))
          t)
unfolding drain_stock drain_incoming
release_rest rid ts log_id n note quantity s t r h same found enough =
    let drained =
      drains-Drained released ended rid ts note log_id n t (Tables-same s t same h.0)
        (rw (← active_same rid s t same, ← incoming_same rid s t same) enough) in
    rw (active_same rid s t same, incoming_same rid s t same)
      (After-map _ (λ r' s'. Settled released rid quantity s r' s' × (s'.stock ≡ t.stock)) _
        (finish-Settled released ts rid n quantity s t _ r h same drained.0 found)
        λ r' s' done. (done.0, done.1 ∙ drained.1))

pub not-false : (b : Bool) → not b ≡ false → b ≡ true
not-false b h = ground arith

-- From a consistent database, a release that returns has released the quantity that was asked for,
-- or the whole: what is held for the reservation is that much less and nothing else is, the
-- reservation has shrunk by it, or has ended if nothing remained, the stock is as it was, and the
-- database is consistent.
pub release_reservation-Settled :
    (rid : ℕ) (quantity : Option ℤ) (note : Option Text) (s : Db)
    → IsConsistent s
    → After
        (λ r' s'. Settled released rid quantity s r' s' × (s'.stock ≡ s.stock) × IsConsistent s')
        (release_reservation rid quantity note s)
unfolding release_reservation
release_reservation-Settled rid quantity note s h =
    let Q : Reservation → Db → Type 0 =
      λ r' s'. Settled released rid quantity s r' s' × (s'.stock ≡ s.stock) in
    After-map Q
      (λ r' s'. Settled released rid quantity s r' s' × (s'.stock ≡ s.stock) × IsConsistent s') _
      (After-reader (λ r. find reservation_key rid s.reservations ≡ some r) Q _ _ s
        (get_reservation-After rid s)
        λ r here. After-raise_if Q (not (is_active r.status)) _ _ s λ live.
          After-reader (λ n. Asked quantity r.quantity n) Q _ _ s
            (requested-After quantity r.quantity s)
            λ n asked. After-raise_if Q (ltb r.quantity n) _ _ s λ fits.
              After-raise_if Q
                (ltb
                  (sum_by (λ a. a.quantity) (active_allocations rid s)
                    + sum_by (λ a. a.quantity) (active_incoming rid s))
                  n)
                _ _ s
                λ enough.
                  After-continue (λ _ t. SameHoldings s t) Q _ _
                    (log_event-SameHoldings reserve (codes "release") r n note s)
                    λ log t same.
                      After-map
                        (λ r' s'. Settled released rid quantity s r' s' × (s'.stock ≡ t.stock)) Q _
                        (release_rest rid log.timestamp log.log_id n note quantity s t r h same
                          (here, not-false (is_active r.status) live, asked, ground arith)
                          (ground arith))
                        λ r' s' done. (done.0, done.1 ∙ same.5))
      λ r' s' done.
        (done.0, done.1, Settled-IsConsistent released rid quantity s s' r' ended h done.0)
