-- ===== src/Orders/Marker.antt =====
-- The marker that an arrival writes into the notes of the allocations that it converts:
-- `_arrival_conversion_marker` and `_arrival_conversion_note` of backend/app/service.py.
use materials_management_sha.Prelude.{
  ℕ, zero, suc, Option, none, some, [], ◌∷◌, ◌++◌, if◌then◌else◌, length,
}
use materials_management_sha.Text.{Text, codes, is_empty, lstrip, strip, decimal}
use materials_management_sha.Text.Scan.{is_digit, then_match, after_literal, take_digits}
use materials_management_sha.Notes.{or_empty, or_none}

unfoldable pub drop_digits : Text → Text
drop_digits [] = []
drop_digits (c ∷ s) = let rest = drop_digits s in if is_digit c then rest else c ∷ s

-- `\d+`, of the digits 0 to 9
unfoldable pub after_digits : Text → Option Text
after_digits [] = none
after_digits (c ∷ s) = if is_digit c then some (drop_digits s) else none

-- What follows a match of `\s*\[\[arrival_tx:\d+:\d+\]\]` at the beginning of the text.
unfoldable pub after_arrival_marker : Text → Option Text
after_arrival_marker s = then_match (after_literal (codes "[[arrival_tx:") (lstrip s)) λ t.
    then_match (after_digits t) λ u.
      then_match (after_literal (codes ":") u)
        λ v. then_match (after_digits v) λ w. after_literal (codes "]]") w

-- `re.sub` with the empty text, on fuel: every step takes a character.
unfoldable pub without_arrival_markers : ℕ → Text → Text
without_arrival_markers zero s = []
without_arrival_markers (suc f) [] = []
without_arrival_markers (suc f) (c ∷ s) = elim (after_arrival_marker (c ∷ s)) [
  | some rest ↦ without_arrival_markers f rest
  | none ↦ c ∷ without_arrival_markers f s
]

-- `_arrival_conversion_marker`
unfoldable pub arrival_marker : ℕ → ℕ → Text
arrival_marker log_id id =
    codes "[[arrival_tx:" ++ (decimal log_id ++ (codes ":" ++ (decimal id ++ codes "]]")))

-- `_arrival_conversion_note`
unfoldable pub arrival_note : Option Text → ℕ → ℕ → Text
arrival_note existing log_id id =
    let text = or_empty existing in
    let base = strip (without_arrival_markers (length text) text) in
    if is_empty base
    then arrival_marker log_id id
    else strip (base ++ (codes " " ++ arrival_marker log_id id))

-- `_remove_arrival_conversion_marker`
unfoldable pub remove_arrival_marker : Option Text → Option Text
remove_arrival_marker none = none
remove_arrival_marker (some note) = or_none (strip (without_arrival_markers (length note) note))

-- A match of `\[\[arrival_tx:\d+:\d+\]\]` at the beginning of the text.
unfoldable pub marker_at : Text → Option Text
marker_at s = then_match (after_literal (codes "[[arrival_tx:") s) λ t.
    then_match (after_digits t) λ u. then_match (after_literal (codes ":") u) λ v.
      then_match (after_digits v) λ w. then_match (after_literal (codes "]]") w) λ _. some (
        codes "[[arrival_tx:"
        ++ ((take_digits t).0 ++ (codes ":" ++ ((take_digits v).0 ++ codes "]]"))))

-- `re.search` of that pattern, `group(0)`
unfoldable pub first_marker : Text → Option Text
first_marker [] = none
first_marker (c ∷ s) =
    let rest = first_marker s in elim (marker_at (c ∷ s)) [ some t ↦ some t | none ↦ rest ]
