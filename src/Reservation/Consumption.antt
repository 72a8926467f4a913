-- ===== src/Reservation/Consumption.antt =====
-- `consume_reservation` as a whole: its guards, its log row, its loop and its last update.
use mathlib.Core.Path.{subst}
use materials_management_sha.Database.Triples.{
  After, After-continue, After-reader, After-raise_if, After-map,
}
use materials_management_sha.Reservation.Release.{
  Found, get_reservation-After, requested-After, finish-Settled, Tables-same, active_same,
  not-false,
}
use materials_management_sha.Reservation.Settled.{Asked, some_inj, Settled, Settled-IsConsistent}
use materials_management_sha.Prelude.{
  ◌∙◌, ℕ, ◌+◌, ◌-◌, ◌≤◌, ◌≡◌, refl, Option, arith, ◌==◌, if◌then◌else◌, ℤ, sum_by, false, List, ap,
  not, ltb, none, some, pos, sym,
}
use materials_management_sha.Text.{Text, codes}
use materials_management_sha.Database.{Db, Reservation, Status, consumed, Allocation, consume, ◌>>◌}
use materials_management_sha.Stock.Total.{on_hand}
use materials_management_sha.Reservation.{
  is_active, shrink_reservation, consume_reservation, active_allocations, stock_kind,
  finish_reservation, get_reservation, consume_rows, find, active_incoming,
}
use materials_management_sha.Reservation.Holdings.{
  held, Tables, incoming_weight, IsConsistent, reservation_key,
}
use materials_management_sha.Reservation.Drained.{
  Drained, SameHoldings, log_event-SameHoldings, stock_Ready,
}
use materials_management_sha.Reservation.Consume.{Consumed, consume_rows-Consumed}

ended : is_active consumed ≡ false
unfolding is_active
ended = refl

-- For every item, what is no longer held for the reservation has left the stock of its item.
abbrev pub Spent : ℕ → Db → Reservation → Db → Type 0
Spent rid s r' s' =
    (j : ℕ)
    → on_hand j s'.stock + (if r'.item_id == j then held rid s - held rid s' else 0)
      ≡ on_hand j s.stock

Consumed-Drained :
    (item rid ts : ℕ) (note : Option Text) (log_id : ℕ) (l : List Allocation) (n rest : ℕ)
    (t u : Db)
    → Tables t
    → n ≤ sum_by (λ a. a.quantity) l
    → Consumed item rid ts note log_id ended l n t rest u
    → Drained rid n t u
unfolding held
Consumed-Drained item rid ts _ log_id l n rest t u tables enough c = (
  c.0,
  rw (c.4, c.5) tables.1,
  rw c.4 (omega (arith, c.1, c.2, enough)),
  λ k ne. rw c.4 (ap (λ (x : ℕ). x + sum_by (incoming_weight k) t.incoming) (c.3 k ne)),
  c.6,
)

shrink-item :
    (closed : Status) (ts rest : ℕ) (r : Reservation)
    → (shrink_reservation closed ts rest r).item_id ≡ r.item_id
unfolding shrink_reservation
shrink-item closed ts rest r = ground arith

spend :
    (rid : ℕ) (quantity : Option ℤ) (item n rest : ℕ) (s t u s' : Db) (r' : Reservation)
    → r'.item_id ≡ item
    → held rid s' + n ≡ held rid s
    → s'.stock ≡ u.stock
    → t.stock ≡ s.stock
    → rest ≡ 0
    → ((j : ℕ)
        → on_hand j u.stock + (if item == j then n else 0)
          ≡ on_hand j t.stock + (if item == j then rest else 0))
    → Spent rid s r' s'
spend rid quantity item n rest s t u s' r' e own su ts none_left all j =
    rw (e, su, ← ts) (ground (arith, own, none_left, all j))

pos_inj : {n m : ℕ} → pos n ≡ pos m → n ≡ m
pos_inj h = cc

Asked-unique :
    (quantity : Option ℤ) (whole n m : ℕ) → Asked quantity whole n → Asked quantity whole m → n ≡ m
Asked-unique none whole n m h k = h ∙ sym k
Asked-unique (some q) whole n m h k = pos_inj (sym h.0 ∙ k.0)

-- The end of a consumption, once the loop has taken `n` and left nothing to take.
spent :
    (rid : ℕ) (quantity : Option ℤ) (n rest : ℕ) (s t u s' : Db) (r r' : Reservation)
    → Found rid quantity s r n
    → t.stock ≡ s.stock
    → rest ≡ 0
    → ((j : ℕ)
        → on_hand j u.stock + (if r.item_id == j then n else 0)
          ≡ on_hand j t.stock + (if r.item_id == j then rest else 0))
    → Settled consumed rid quantity s r' s'
    → s'.stock ≡ u.stock
    → Spent rid s r' s'
spent rid quantity n rest s t u s' r r' found ts none_left all
      (r0, n0, ts0, found0, live0, asked0, le0, tables, own, others, updated, result) su =
    let same : r0 ≡ r = some_inj (sym found0 ∙ found.0) in
    let n_same : n0 ≡ n =
      Asked-unique quantity r.quantity n0 n
        (subst (λ (x : Reservation). Asked quantity x.quantity n0) same asked0) found.2 in
    spend rid quantity r.item_id n rest s t u s' r'
      (ap (λ (x : Reservation). x.item_id) result
        ∙ (shrink-item consumed ts0 (r0.quantity - n0) r0
            ∙ ap (λ (x : Reservation). x.item_id) same))
      (subst (λ (x : ℕ). held rid s' + x ≡ held rid s) n_same own) su ts none_left all

consume_rest :
    (rid ts log_id n : ℕ) (note : Option Text) (quantity : Option ℤ) (s t : Db) (r : Reservation)
    → IsConsistent s
    → SameHoldings s t
    → Found rid quantity s r n
    → n ≤ sum_by (λ a. a.quantity) (active_allocations rid s)
    → After
        (λ r' s'. Settled consumed rid quantity s r' s' × Spent rid s r' s')
        ((consume_rows r.item_id (stock_kind consumed ts note log_id) (active_allocations rid s) n
            >> (finish_reservation consumed ts rid (r.quantity - n) >> get_reservation rid))
          t)
consume_rest rid ts log_id n note quantity s t r h same found enough =
    let l = active_allocations rid s in
    let tables = Tables-same s t same h.0 in
    After-continue (Consumed r.item_id rid ts note log_id ended l n t) _ _ _
      (consume_rows-Consumed r.item_id rid ts note log_id ended l n t
        (rw (active_same rid s t same) (stock_Ready consumed ended rid ts note log_id t tables)))
      λ rest u c.
        After-map (λ r' s'. Settled consumed rid quantity s r' s' × (s'.stock ≡ u.stock))
          (λ r' s'. Settled consumed rid quantity s r' s' × Spent rid s r' s') _
          (finish-Settled consumed ts rid n quantity s t u r h same
            (Consumed-Drained r.item_id rid ts note log_id l n rest t u tables enough c) found)
          λ r' s' done. (
            done.0,
            spent rid quantity n rest s t u s' r r' found same.5 (omega (arith, c.1, enough)) c.7
                done.0 done.1,
          )

-- From a consistent database, a consumption that returns has consumed the quantity that was asked
-- for, or the whole: what is held for the reservation is that much less and nothing else is, as
-- much has left the stock of its item and nothing that of another, the reservation has shrunk by
-- it, or has ended if nothing remained, and the database is consistent.
pub consume_reservation-Settled :
    (rid : ℕ) (quantity : Option ℤ) (note : Option Text) (s : Db)
    → IsConsistent s
    → After
        (λ r' s'. Settled consumed rid quantity s r' s' × Spent rid s r' s' × IsConsistent s')
        (consume_reservation rid quantity note s)
unfolding consume_reservation
consume_reservation-Settled rid quantity note s h =
    let Q : Reservation → Db → Type 0 =
      λ r' s'. Settled consumed rid quantity s r' s' × Spent rid s r' s' in
    After-map Q
      (λ r' s'. Settled consumed rid quantity s r' s' × Spent rid s r' s' × IsConsistent s') _
      (After-reader (λ r. find reservation_key rid s.reservations ≡ some r) Q _ _ s
        (get_reservation-After rid s)
        λ r here. After-raise_if Q (not (is_active r.status)) _ _ s λ live.
          After-reader (λ n. Asked quantity r.quantity n) Q _ _ s
            (requested-After quantity r.quantity s)
            λ n asked. After-raise_if Q (ltb r.quantity n) _ _ s λ fits.
              After-raise_if Q
                (ltb
                  (sum_by (λ a. a.quantity) (active_allocations rid s)
                    + sum_by (λ a. a.quantity) (active_incoming rid s))
                  n)
                _ _ s
                λ _.
                  After-raise_if Q (ltb (sum_by (λ a. a.quantity) (active_allocations rid s)) n) _ _
                    s
                    λ enough.
                      After-continue (λ _ t. SameHoldings s t) Q _ _
                        (log_event-SameHoldings consume (codes "consume") r n note s)
                        λ log t same.
                          consume_rest rid log.timestamp log.log_id n note quantity s t r h same
                            (here, not-false (is_active r.status) live, asked, ground arith)
                            (ground arith))
      λ r' s' done.
        (done.0, done.1, Settled-IsConsistent consumed rid quantity s s' r' ended h done.0)
