-- ===== src/Integrity.antt =====
-- The checks of reservations in `get_operational_integrity_summary` of backend/app/service.py.
pub mod Passes
use materials_management_sha.Prelude.{
  ℕ, ◌+◌, Bool, true, false, ◌&&◌, ◌||◌, not, List, [], ◌∷◌, ◌==◌, if◌then◌else◌, keep, length,
  any_of,
}
use materials_management_sha.Database.{
  Db, Reservation, Status, active, released, consumed, converted, shortage,
}
use materials_management_sha.Reservation.{is_active, holds_stock, holds_incoming}
use materials_management_sha.Reservation.Holdings.{held}

-- WHERE r.status = 'ACTIVE' AND COALESCE(…) + COALESCE(…) <> r.quantity
unfoldable pub is_mismatch : Db → Reservation → Bool
is_mismatch s r = is_active r.status && not (held r.reservation_id s == r.quantity)

-- `active_reservation_quantity_mismatches`
unfoldable pub quantity_mismatches : Db → ℕ
quantity_mismatches s = length (keep (is_mismatch s) s.reservations)

-- r.status IN ('RELEASED', 'CONSUMED')
unfoldable pub is_terminal : Status → Bool
is_terminal active = false
is_terminal released = true
is_terminal consumed = true
is_terminal converted = false
is_terminal shortage = false

-- A terminal reservation with an active allocation in one of the two tables.
unfoldable pub is_leak : Db → Reservation → Bool
is_leak s r =
    is_terminal r.status
    && (any_of (holds_stock r.reservation_id) s.allocations
        || any_of (holds_incoming r.reservation_id) s.incoming)

-- `terminal_reservations_with_active_allocations`
unfoldable pub active_leaks : Db → ℕ
active_leaks s = length (keep (is_leak s) s.reservations)
