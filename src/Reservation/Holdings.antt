-- ===== src/Reservation/Holdings.antt =====
-- What is held for a reservation, and the consistency of reservations with their allocations.
use materials_management_sha.Prelude.{
  ℕ, ◌+◌, ◌≡◌, ◌≢◌, refl, Bool, true, false, Option, some, List, [], ◌∷◌, if◌then◌else◌, sum_by,
  keep, arith, Bool-cases, inl, inr,
}
use materials_management_sha.Text.{Text}
use materials_management_sha.Database.{Db, Reservation, Allocation, Incoming, Status}
use materials_management_sha.Database.Table.{find, IsKeyed}
use materials_management_sha.Drain.Laws.{IsKind, IsTable, All}
use materials_management_sha.Drain.Others.{IsOther}
use materials_management_sha.Reservation.{
  is_active, holds_stock, holds_incoming, stock_kind, incoming_kind,
}

-- The quantity of a row, if it is an active row of the reservation.
unfoldable pub stock_weight : ℕ → Allocation → ℕ
unfolding holds_stock
stock_weight rid a = if holds_stock rid a then a.quantity else 0

unfoldable pub incoming_weight : ℕ → Incoming → ℕ
unfolding holds_incoming
incoming_weight rid a = if holds_incoming rid a then a.quantity else 0

-- The active allocations of a reservation, of stock and of incoming orders, added up.
unfoldable pub held : ℕ → Db → ℕ
held rid s = sum_by (stock_weight rid) s.allocations + sum_by (incoming_weight rid) s.incoming

abbrev pub allocation_key : Allocation → ℕ
allocation_key a = a.allocation_id

abbrev pub incoming_key : Incoming → ℕ
incoming_key a = a.incoming_allocation_id

abbrev pub reservation_key : Reservation → ℕ
reservation_key r = r.reservation_id

-- The primary keys are unique and lie below the identity columns' next values.
abbrev pub Tables : Db → Type 0
Tables s =
    IsTable allocation_key (s.next_allocation, s.allocations)
    × IsTable incoming_key (s.next_incoming, s.incoming)
    × IsKeyed reservation_key s.reservations

-- What an active reservation must have behind it, and an ended one must not.
unfoldable pub backed : Reservation → ℕ
unfolding is_active
backed r = if is_active r.status then r.quantity else 0

-- The first two checks of `get_operational_integrity_summary` count no row: every active
-- reservation is backed by exactly its quantity, and an ended one by nothing.
abbrev pub IsConsistent : Db → Type 0
IsConsistent s =
    Tables s
    × ((k : ℕ) (r : Reservation)
        → find reservation_key k s.reservations ≡ some r
        → held k s ≡ backed r)

pub keep-All : {A : Type 0} (p : A → Bool) (xs : List A) → All (λ x. p x ≡ true) (keep p xs)
unfolding keep
keep-All p [] = tt
keep-All p (x ∷ xs) = elim (Bool-cases (p x)) [
  | inl e ↦ rw e (e, keep-All p xs)
  | inr e ↦ rw e (keep-All p xs)
]

module _ (rid : ℕ) (closed : Status) (ended : is_active closed ≡ false) (ts : ℕ)
    (note : Option Text) (log_id : ℕ) where
  abbrev pub HoldsStock : Allocation → Type 0
  HoldsStock a = holds_stock rid a ≡ true

  abbrev pub HoldsIncoming : Incoming → Type 0
  HoldsIncoming a = holds_incoming rid a ≡ true

  pub stock_IsKind : IsKind (stock_kind closed ts note log_id) (stock_weight rid) HoldsStock
  unfolding stock_weight
  stock_IsKind = record {
    close_key = λ a r. refl;
    shrink_key = λ n r. refl;
    part_key = λ a n used r. refl;
    close_weight = λ a r. ground (arith, ended);
    part_weight = λ a n used r. ground (arith, ended);
    weight = λ r h. rw h;
    shrink_weight = λ n r h. rw h;
  }

  pub incoming_IsKind :
      IsKind (incoming_kind closed ts note log_id) (incoming_weight rid) HoldsIncoming
  unfolding incoming_weight
  incoming_IsKind = record {
    close_key = λ a r. refl;
    shrink_key = λ n r. refl;
    part_key = λ a n used r. refl;
    close_weight = λ a r. ground (arith, ended);
    part_weight = λ a n used r. ground (arith, ended);
    weight = λ r h. rw h;
    shrink_weight = λ n r h. rw h;
  }

  module _ (k : ℕ) (ne : k ≢ rid) where
    pub stock_IsOther : IsOther (stock_kind closed ts note log_id) (stock_weight k) HoldsStock
    unfolding stock_weight
    stock_IsOther = record {
      held = λ r h. ground arith;
      closed = λ a r h. ground arith;
      shrunk = λ n r h. ground arith;
      parted = λ a n used m r h. ground arith;
    }

    pub incoming_IsOther :
        IsOther (incoming_kind closed ts note log_id) (incoming_weight k) HoldsIncoming
    unfolding incoming_weight
    incoming_IsOther = record {
      held = λ r h. ground arith;
      closed = λ a r h. ground arith;
      shrunk = λ n r h. ground arith;
      parted = λ a n used m r h. ground arith;
    }
