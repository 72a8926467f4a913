-- ===== src/Undo/Reopened.antt =====
-- The undo of a release in backend/app/service.py, and what it gives back to the reservation.
use materials_management_sha.Database.Table.Laws.{IsKeyed-keep, Stands-keep, IsKeyed-update}
use materials_management_sha.Database.Table.{update}
use materials_management_sha.Prelude.{
  ℕ, ◌≡◌, refl, true, false, ◌&&◌, List, [], ◌∷◌, ◌==◌, arith, sum_by, keep, ◌+◌, ap, Bool,
}
use materials_management_sha.Database.{Allocation, Incoming, Status, released, Db}
use materials_management_sha.Drain.Laws.{All, IsTable}
use materials_management_sha.Restore.Laws.{IsRevival, share, restore-Revived}
use materials_management_sha.Reservation.{is_active, holds_stock, holds_incoming}
use materials_management_sha.Reservation.Holdings.{
  stock_weight, incoming_weight, Tables, keep-All, allocation_key, incoming_key, reservation_key,
  held,
}
use materials_management_sha.Undo.{
  status_code, has_marker, stock_revival, incoming_revival, undo_rows, undo_incoming_rows,
  restore_stock_rows, restore_incoming_rows, regain_reservation, regain,
}

-- An ended row of the reservation.
abbrev ClosedStock : ℕ → Allocation → Type 0
ClosedStock rid a = ((a.reservation_id == rid) ≡ true) × (is_active a.status ≡ false)

abbrev ClosedIncoming : ℕ → Incoming → Type 0
ClosedIncoming rid a = ((a.reservation_id == rid) ≡ true) × (is_active a.status ≡ false)

stock_IsRevival :
    (k rid log_id : ℕ)
    → IsRevival (stock_revival rid log_id) (stock_weight k) (k == rid) (ClosedStock rid)
unfolding stock_weight holds_stock is_active
stock_IsRevival k rid log_id = record {
  revive_key = λ a r. refl;
  grow_key = λ n r. refl;
  closed_weight = λ a c. ground (arith, c.1);
  revive_weight = λ a c. ground (arith, c.0);
  match_weight = λ a r c m. ground (arith, m);
  grow_weight = λ a r n c m. ground (arith, m);
  match_open = λ a r m c. ground (arith, m, c.1);
}

incoming_IsRevival :
    (k rid log_id now : ℕ)
    → IsRevival
        (incoming_revival rid log_id now)
        (incoming_weight k)
        (k == rid)
        (ClosedIncoming rid)
unfolding incoming_weight holds_incoming is_active
incoming_IsRevival k rid log_id now = record {
  revive_key = λ a r. refl;
  grow_key = λ n r. refl;
  closed_weight = λ a c. ground (arith, c.1);
  revive_weight = λ a c. ground (arith, c.0);
  match_weight = λ a r c m. ground (arith, m);
  grow_weight = λ a r n c m. ground (arith, m);
  match_open = λ a r m c. ground (arith, m, c.1);
}

All-map : {A : Type 0} → (P Q : A → Type 0) (l : List A) → ((a : A) → P a → Q a) → All P l → All Q l
All-map P Q [] f h = tt
All-map P Q (a ∷ l) f h = (f a h.0, All-map P Q l f h.1)

released_is : (s : Status) → (status_code s == status_code released) ≡ true → is_active s ≡ false
unfolding status_code is_active
released_is s h = ground (arith, h)

stock_closed :
    (rid log_id : ℕ) (a : Allocation)
    → (a.reservation_id == rid
        && status_code a.status == status_code released
        && has_marker log_id a.note)
      ≡ true
    → ClosedStock rid a
stock_closed rid log_id a h = (ground (arith, h), released_is a.status (ground (arith, h)))

incoming_closed :
    (rid log_id : ℕ) (a : Incoming)
    → (a.reservation_id == rid
        && status_code a.status == status_code released
        && has_marker log_id a.note)
      ≡ true
    → ClosedIncoming rid a
incoming_closed rid log_id a h = (ground (arith, h), released_is a.status (ground (arith, h)))

share-sum : (own : Bool) (n m : ℕ) → share own (n + m) ≡ share own n + share own m
share-sum own n m = ground arith

-- The rows that a release ended, in their table.
stock_revived :
    (k rid log_id : ℕ) (s : Db)
    → Tables s
    → IsTable allocation_key (
      s.next_allocation,
      (restore_stock_rows rid log_id (undo_rows rid released log_id s) s).allocations,
    )
      × (sum_by
            (stock_weight k)
            (restore_stock_rows rid log_id (undo_rows rid released log_id s) s).allocations
          ≡ sum_by (stock_weight k) s.allocations
            + share (k == rid) (sum_by (λ a. a.quantity) (undo_rows rid released log_id s)))
unfolding restore_stock_rows undo_rows
stock_revived k rid log_id s h =
    let p : Allocation → Bool = λ a.
      a.reservation_id == rid
      && status_code a.status == status_code released
      && has_marker log_id a.note in
    restore-Revived (stock_revival rid log_id) (stock_weight k) (k == rid) (ClosedStock rid)
      (stock_IsRevival k rid log_id) s.next_allocation (keep p s.allocations) s.allocations h.0
      (
        IsKeyed-keep allocation_key p s.allocations h.0.0,
        Stands-keep allocation_key p s.allocations h.0.0,
        All-map (λ a. p a ≡ true) (ClosedStock rid) (keep p s.allocations) (stock_closed rid log_id)
            (keep-All p s.allocations),
      )

incoming_revived :
    (k rid log_id : ℕ) (s : Db)
    → Tables s
    → IsTable incoming_key (
      s.next_incoming,
      (restore_incoming_rows rid log_id (undo_incoming_rows rid released log_id s) s).incoming,
    )
      × (sum_by
            (incoming_weight k)
            (restore_incoming_rows rid log_id (undo_incoming_rows rid released log_id s) s).incoming
          ≡ sum_by (incoming_weight k) s.incoming
            + share
                (k == rid)
                (sum_by (λ a. a.quantity) (undo_incoming_rows rid released log_id s)))
unfolding restore_incoming_rows undo_incoming_rows
incoming_revived k rid log_id s h =
    let p : Incoming → Bool = λ a.
      a.reservation_id == rid
      && status_code a.status == status_code released
      && has_marker log_id a.note in
    restore-Revived (incoming_revival rid log_id s.now) (incoming_weight k) (k == rid)
      (ClosedIncoming rid) (incoming_IsRevival k rid log_id s.now) s.next_incoming
      (keep p s.incoming) s.incoming h.1
      (
        IsKeyed-keep incoming_key p s.incoming h.1.0,
        Stands-keep incoming_key p s.incoming h.1.0,
        All-map (λ a. p a ≡ true) (ClosedIncoming rid) (keep p s.incoming)
            (incoming_closed rid log_id) (keep-All p s.incoming),
      )

-- The three changes of the tables that the undo of a release makes.
abbrev pub reopened : ℕ → ℕ → ℕ → Db → Db
reopened rid log_id q s = regain_reservation rid q (
    restore_incoming_rows rid log_id (undo_incoming_rows rid released log_id s)
      (restore_stock_rows rid log_id (undo_rows rid released log_id s) s))

-- What a release took is held again, by its reservation only.
abbrev pub Reopens : ℕ → ℕ → ℕ → Db → Db → Type 0
Reopens rid q n s t =
    Tables t
    × ((k : ℕ) → held k t ≡ held k s + share (k == rid) n)
    × (t.reservations ≡ update reservation_key rid (regain q) s.reservations)
    × (t.stock ≡ s.stock)

pub reopened-Reopens :
    (rid log_id q n : ℕ) (s : Db)
    → Tables s
    → sum_by (λ a. a.quantity) (undo_rows rid released log_id s)
        + sum_by (λ a. a.quantity) (undo_incoming_rows rid released log_id s)
      ≡ n
    → Reopens rid q n s (reopened rid log_id q s)
unfolding regain_reservation restore_incoming_rows restore_stock_rows held regain
reopened-Reopens rid log_id q n s h total = (
  (
    (stock_revived rid rid log_id s h).0,
    (incoming_revived rid rid log_id s h).0,
    IsKeyed-update reservation_key rid (regain q) (λ r. refl) s.reservations h.2,
  ),
  λ k. omega (
    arith,
    (stock_revived k rid log_id s h).1,
    (incoming_revived k rid log_id s h).1,
    total,
    share-sum (k == rid) (sum_by (λ a. a.quantity) (undo_rows rid released log_id s))
        (sum_by (λ a. a.quantity) (undo_incoming_rows rid released log_id s)),
    ap (share (k == rid)) total,
  ),
  refl,
  refl,
)
