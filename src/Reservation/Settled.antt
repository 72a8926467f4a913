-- ===== src/Reservation/Settled.antt =====
-- What a release or a consumption has done to the reservations, and the consistency that
-- `get_operational_integrity_summary` checks.
use mathlib.Core.Path.{subst}
use materials_management_sha.Prelude.{
  ℕ, ◌+◌, ◌-◌, ◌≤◌, ◌<◌, ◌≡◌, ◌≢◌, ◌∙◌, true, false, Option, none, some, arith, ◌==◌, Bool-cases,
  inl, inr, ℤ, pos, sym, ap, ==_iff,
}
use materials_management_sha.Database.{Db, Reservation, Status}
use materials_management_sha.Database.Table.{find, update}
use materials_management_sha.Database.Table.Laws.{find-update_self, find-update_ne}
use materials_management_sha.Reservation.{is_active, shrink_reservation}
use materials_management_sha.Reservation.Holdings.{
  held, reservation_key, Tables, backed, IsConsistent,
}

-- What `requested` returns for the quantity of a request.
abbrev pub Asked : Option ℤ → ℕ → ℕ → Type 0
Asked none whole n = n ≡ whole
Asked (some q) whole n = (q ≡ pos n) × (0 < n)

-- The reservation `r` of `rid` was active. Of it `n` units, no more than it had, have ended with
-- the status `closed`: what is held for it is `n` less, nothing else is, and the reservation shrinks,
-- or ends if nothing remains of it; `r'` is what is returned.
abbrev pub Settled : Status → ℕ → Option ℤ → Db → Reservation → Db → Type 0
Settled closed rid quantity s r' s' =
    (r : Reservation) × (n ts : ℕ) × (find reservation_key rid s.reservations ≡ some r)
    × (is_active r.status ≡ true)
    × Asked quantity r.quantity n
    × (n ≤ r.quantity)
    × Tables s'
    × (held rid s' + n ≡ held rid s)
    × ((k : ℕ) → k ≢ rid → held k s' ≡ held k s)
    × (s'.reservations
        ≡ update reservation_key rid (shrink_reservation closed ts (r.quantity - n)) s.reservations)
    × (r' ≡ shrink_reservation closed ts (r.quantity - n) r)

pub shrink-key :
    (closed : Status) (ts rest : ℕ) (r : Reservation)
    → reservation_key (shrink_reservation closed ts rest r) ≡ reservation_key r
unfolding shrink_reservation
shrink-key closed ts rest r = ground arith

shrink-backed :
    (closed : Status) (ts n : ℕ) (r : Reservation)
    → is_active closed ≡ false
    → is_active r.status ≡ true
    → n ≤ r.quantity
    → backed (shrink_reservation closed ts (r.quantity - n) r) + n ≡ r.quantity
unfolding shrink_reservation backed
shrink-backed closed ts n r ended live le = elim (Bool-cases (r.quantity - n == 0)) [
  | inl e ↦ rw e (rw ended (ground arith))
  | inr e ↦ rw e (rw live (ground arith))
]

differ : (k rid : ℕ) → (k == rid) ≡ false → k ≡ rid → ⊥
differ k rid h p = ground arith

live_backed : (r : Reservation) → is_active r.status ≡ true → backed r ≡ r.quantity
unfolding backed
live_backed r live = rw live

pub some_inj : {a b : Reservation} → some a ≡ some b → a ≡ b
some_inj h = cc

-- What is found after the update, for the reservation and for the others.
found_self :
    (closed : Status) (rid ts rest : ℕ) (s s' : Db) (r x : Reservation)
    → find reservation_key rid s.reservations ≡ some r
    → s'.reservations
      ≡ update reservation_key rid (shrink_reservation closed ts rest) s.reservations
    → find reservation_key rid s'.reservations ≡ some x
    → x ≡ shrink_reservation closed ts rest r
found_self closed rid ts rest s s' r x found updated e =
    let f = shrink_reservation closed ts rest in
    some_inj (
      sym e
      ∙ (ap (find reservation_key rid) updated
          ∙ find-update_self reservation_key rid f (shrink-key closed ts rest) s.reservations r
              found))

found_other :
    (closed : Status) (rid ts rest k : ℕ) (s s' : Db)
    → k ≢ rid
    → s'.reservations
      ≡ update reservation_key rid (shrink_reservation closed ts rest) s.reservations
    → find reservation_key k s'.reservations ≡ find reservation_key k s.reservations
found_other closed rid ts rest k s s' ne updated =
    ap (find reservation_key k) updated
    ∙ find-update_ne reservation_key rid (shrink_reservation closed ts rest)
        (shrink-key closed ts rest) k s.reservations ne

pub Settled-IsConsistent :
    (closed : Status) (rid : ℕ) (quantity : Option ℤ) (s s' : Db) (r' : Reservation)
    → is_active closed ≡ false
    → IsConsistent s
    → Settled closed rid quantity s r' s'
    → IsConsistent s'
Settled-IsConsistent closed rid quantity s s' r' ended h
      (r, n, ts, found, live, asked, le, tables, own, others, updated, result) =
    (
      tables,
      λ k x e. elim (Bool-cases (k == rid)) [
        | inl same ↦
            let k_rid : k ≡ rid = (==_iff k rid).0 same in
            let at_rid = subst (λ i. find reservation_key i s'.reservations ≡ some x) k_rid e in
            let shrunk = found_self closed rid ts (r.quantity - n) s s' r x found updated at_rid in
            let before = h.1 rid r found in
            rw (k_rid, shrunk)
              (omega
                (arith, own, before, live_backed r live, shrink-backed closed ts n r ended live le))
        | inr other ↦
            let ne : k ≢ rid = λ p. absurd (differ k rid other p) in
            others k ne
            ∙ h.1 k x (sym (found_other closed rid ts (r.quantity - n) k s s' ne updated) ∙ e)
      ],
    )
