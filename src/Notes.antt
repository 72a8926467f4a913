-- ===== src/Notes.antt =====
-- The markers that backend/app/service.py writes at the end of an allocation's note, so that an
-- undo finds the rows of its transaction: `_append_reservation_tx_marker`,
-- `_remove_reservation_tx_marker` and `_reservation_event_note`.
pub mod RoundTrip
use materials_management_sha.Prelude.{
  ℕ, Bool, true, false, Option, none, some, List, [], ◌∷◌, ◌++◌, if◌then◌else◌,
}
use materials_management_sha.Text.{
  Text, codes, is_empty, rstrip, strip, without_suffix, ends_with, decimal,
}

-- `[[tx:N]]`
unfoldable pub tx_marker : ℕ → Text
tx_marker log_id = codes "[[tx:" ++ (decimal log_id ++ codes "]]")

-- `note or ""`
unfoldable pub or_empty : Option Text → Text
or_empty none = []
or_empty (some t) = t

-- `text or None`
unfoldable pub or_none : Text → Option Text
or_none [] = none
or_none (c ∷ t) = some (c ∷ t)

-- `_append_reservation_tx_marker`
unfoldable pub append_tx_marker : Option Text → ℕ → Text
unfolding tx_marker or_empty
append_tx_marker note log_id =
    let base = rstrip (or_empty note) in
    if is_empty base then tx_marker log_id else strip (base ++ (codes " " ++ tx_marker log_id))

-- The text that `re.sub` leaves when the pattern `\s*[[tx:N]]$` takes away a match: `$` also
-- matches before a newline at the end. The blanks before the marker go with the `strip` after it.
unfoldable pub cut_tx_marker : ℕ → Text → Text
unfolding tx_marker
cut_tx_marker log_id note = elim (without_suffix (tx_marker log_id) note) [
  | some before ↦ before
  | none ↦ elim (without_suffix (tx_marker log_id ++ 10 ∷ []) note) [
    | some before ↦ before ++ 10 ∷ []
    | none ↦ note
  ]
]

-- `_remove_reservation_tx_marker`
unfoldable pub remove_tx_marker : Option Text → ℕ → Option Text
remove_tx_marker none log_id = none
remove_tx_marker (some note) log_id = or_none (strip (cut_tx_marker log_id note))

-- `_reservation_event_note`
unfoldable pub event_note : Option Text → Option Text → ℕ → Text
unfolding remove_tx_marker append_tx_marker
event_note (some override_note) existing_note log_id = append_tx_marker (some override_note) log_id
event_note none existing_note log_id =
    append_tx_marker (remove_tx_marker existing_note log_id) log_id
