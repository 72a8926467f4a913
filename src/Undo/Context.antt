-- ===== src/Undo/Context.antt =====
-- What an undo reads from texts: `_find_reservation_transaction_context` of backend/app/service.py,
-- and the order that the note of an arrival names.
use materials_management_sha.Prelude.{
  ℕ, Bool, true, ◌&&◌, ◌||◌, not, leb, Option, none, some, [], ◌∷◌, if◌then◌else◌, ◌==◌,
}
use materials_management_sha.Text.{Text, codes, strip}
use materials_management_sha.Text.Scan.{after_literal, read_number, then_match, is_digit}
use materials_management_sha.Notes.{or_empty}

-- The action, with its reservation and, for a release or consumption, its transaction.
pub data ReservationContext : Type 0 where
  release_of consume_of : ℕ → ℕ → ReservationContext
  creation_of : ℕ → ReservationContext
  other : ReservationContext

abbrev at_end : {A : Type 0} → Text → A → Option A
at_end [] a = some a
at_end (c ∷ s) a = none

-- `(\d+)-log-(\d+)$` behind a prefix
unfoldable pub numbers_after : Text → Text → Option (ℕ × ℕ)
numbers_after prefix s = then_match (after_literal prefix s) λ t. then_match (read_number t) λ u.
    then_match (after_literal (codes "-log-") u.1)
      λ v. then_match (read_number v) λ w. at_end w.1 (u.0, w.0)

-- `^reservation-(\d+)$`
unfoldable pub creation_number : Text → Option ℕ
creation_number s =
    then_match (after_literal (codes "reservation-") s)
      λ t. then_match (read_number t) λ u. at_end u.1 u.0

-- The first pattern that matches decides.
abbrev pub or_event :
    (ℕ → ℕ → ReservationContext) → Option (ℕ × ℕ) → ReservationContext → ReservationContext
or_event f none rest = rest
or_event f (some (rid, log_id)) rest = f rid log_id

abbrev pub or_creation : Option ℕ → ReservationContext
or_creation none = other
or_creation (some rid) = creation_of rid

unfoldable pub context_of : Text → ReservationContext
context_of s = or_event release_of (numbers_after (codes "reservation-release-") s) (
    or_event consume_of (numbers_after (codes "reservation-consume-") s)
      (or_creation (creation_number s)))

-- `_find_reservation_transaction_context`
unfoldable pub transaction_context : Option Text → ReservationContext
transaction_context batch_id = context_of (strip (or_empty batch_id))

-- `\w`, of the letters, digits and `_` of ASCII
abbrev is_word : ℕ → Bool
is_word c = is_digit c || (leb 65 c && leb c 90) || (leb 97 c && leb c 122) || c == 95

unfoldable pub at_boundary : Text → Bool
at_boundary [] = true
at_boundary (c ∷ s) = not (is_word c)

unfoldable pub order_at : Text → Option ℕ
order_at s =
    then_match (after_literal (codes "order_id=") s)
      λ t. then_match (read_number t) λ u. if at_boundary u.1 then some u.0 else none

-- `re.search(r"\border_id=(\d+)\b", note)`; the first argument tells whether a word ends here.
unfoldable pub find_order : Bool → Text → Option ℕ
find_order inside [] = none
find_order inside (c ∷ s) =
    let rest = find_order (is_word c) s in
    if inside then rest else elim (order_at (c ∷ s)) [ some n ↦ some n | none ↦ rest ]
