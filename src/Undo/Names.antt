-- ===== src/Undo/Names.antt =====
-- The names that backend/app/service.py gives to the batches of reservations, read by an undo.
use mathlib.Core.List.{append-nil}
use materials_management_sha.Prelude.{
  ℕ, ◌≡◌, refl, ◌∙◌, ap, none, some, [], ◌∷◌, ◌++◌, arith, sym, false,
}
use materials_management_sha.Text.{Text, codes, decimal, strip, lstrip, rstrip, is_space}
use materials_management_sha.Text.Scan.{after_literal, read_digits, is_digit, read_number}
use materials_management_sha.Text.Strip.{is_empty-append, rstrip-append}
use materials_management_sha.Text.Decimal.{
  Stops, decimal-Begins, read_number-decimal, rstrip-decimal, decimal_full,
}
use materials_management_sha.Notes.{or_empty}
use materials_management_sha.Reservation.{event_batch}
use materials_management_sha.Undo.Context.{
  release_of, consume_of, creation_of, numbers_after, creation_number, context_of,
  transaction_context,
}

-- The name of the batch of a release or a consumption, as the log row carries it in the end.
abbrev pub event_name : Text → ℕ → ℕ → Text
event_name verb rid log_id = event_batch verb rid ++ (codes "-log-" ++ decimal log_id)

abbrev pub creation_name : ℕ → Text
creation_name rid = codes "reservation-" ++ decimal rid

nothing-Stops : Stops []
unfolding read_digits
nothing-Stops n = refl

read_last : (n : ℕ) → read_number (decimal n) ≡ some (n, [])
read_last n = ap read_number (sym (append-nil (decimal n))) ∙ read_number-decimal n [] nothing-Stops

log-Stops : (t : Text) → Stops (codes "-log-" ++ t)
unfolding read_digits
log-Stops t n = refl

rstrip-event :
    (p : Text) (log_id : ℕ)
    → rstrip (p ++ (codes "-log-" ++ decimal log_id)) ≡ p ++ (codes "-log-" ++ decimal log_id)
rstrip-event p log_id =
    rstrip-append p (codes "-log-" ++ decimal log_id)
      (is_empty-append (codes "-log-") (decimal log_id) (decimal_full log_id))
      (rstrip-append (codes "-log-") (decimal log_id) (decimal_full log_id) (rstrip-decimal log_id))

strip-release :
    (rid log_id : ℕ)
    → strip (event_name (codes "release") rid log_id) ≡ event_name (codes "release") rid log_id
unfolding strip lstrip is_space event_batch
strip-release rid log_id = ap lstrip (rstrip-event (event_batch (codes "release") rid) log_id)

strip-consume :
    (rid log_id : ℕ)
    → strip (event_name (codes "consume") rid log_id) ≡ event_name (codes "consume") rid log_id
unfolding strip lstrip is_space event_batch
strip-consume rid log_id = ap lstrip (rstrip-event (event_batch (codes "consume") rid) log_id)

strip-creation : (rid : ℕ) → strip (creation_name rid) ≡ creation_name rid
unfolding strip lstrip is_space
strip-creation rid =
    ap lstrip
      (rstrip-append (codes "reservation-") (decimal rid) (decimal_full rid) (rstrip-decimal rid))

numbers-release :
    (rid log_id : ℕ)
    → numbers_after (codes "reservation-release-") (event_name (codes "release") rid log_id)
      ≡ some (rid, log_id)
unfolding numbers_after after_literal event_batch
numbers-release rid log_id =
    rw (read_number-decimal rid (codes "-log-" ++ decimal log_id) (log-Stops (decimal log_id)))
      (rw (read_last log_id) refl)

numbers-consume :
    (rid log_id : ℕ)
    → numbers_after (codes "reservation-consume-") (event_name (codes "consume") rid log_id)
      ≡ some (rid, log_id)
unfolding numbers_after after_literal event_batch
numbers-consume rid log_id =
    rw (read_number-decimal rid (codes "-log-" ++ decimal log_id) (log-Stops (decimal log_id)))
      (rw (read_last log_id) refl)

no_release :
    (rid log_id : ℕ)
    → numbers_after (codes "reservation-release-") (event_name (codes "consume") rid log_id) ≡ none
unfolding numbers_after after_literal event_batch
no_release rid log_id = refl

numbers-creation : (rid : ℕ) → creation_number (creation_name rid) ≡ some rid
unfolding creation_number after_literal
numbers-creation rid = rw (read_last rid) refl

mismatch :
    (c : ℕ) (p : Text) (rid : ℕ) → is_digit c ≡ false → after_literal (c ∷ p) (decimal rid) ≡ none
unfolding after_literal
mismatch c p rid h =
    let (d, (t, (t_is, digit))) = decimal-Begins rid in rw t_is (ground (arith, h, digit))

creation_no_release :
    (rid : ℕ) → numbers_after (codes "reservation-release-") (creation_name rid) ≡ none
unfolding numbers_after after_literal
creation_no_release rid = rw (mismatch 114 (codes "elease-") rid refl) refl

creation_no_consume :
    (rid : ℕ) → numbers_after (codes "reservation-consume-") (creation_name rid) ≡ none
unfolding numbers_after after_literal
creation_no_consume rid = rw (mismatch 99 (codes "onsume-") rid refl) refl

-- The undo reads back what the names of the batches of reservations say: the reservation and the
-- transaction of a release, those of a consumption, and the reservation of a creation.
pub transaction_context-name :
    (rid log_id : ℕ)
    → (transaction_context (some (event_name (codes "release") rid log_id)) ≡ release_of rid log_id)
      × (transaction_context (some (event_name (codes "consume") rid log_id))
          ≡ consume_of rid log_id)
      × (transaction_context (some (creation_name rid)) ≡ creation_of rid)
unfolding transaction_context context_of or_empty
transaction_context-name rid log_id = (
  rw (strip-release rid log_id, numbers-release rid log_id) refl,
  rw (strip-consume rid log_id, no_release rid log_id, numbers-consume rid log_id) refl,
  rw (strip-creation rid, creation_no_release rid, creation_no_consume rid, numbers-creation rid)
      refl,
)
