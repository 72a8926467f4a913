-- ===== src/Notes/RoundTrip.antt =====
-- Appending, finding and removing the markers of a transaction in a note.
use mathlib.Core.List.{append_assoc}
use materials_management_sha.Prelude.{
  ℕ, ◌≡◌, refl, ◌∙◌, ap, true, false, Option, none, some, [], ◌∷◌, ◌++◌, arith, if◌then◌else◌,
  Bool-cases, inl, inr,
}
use materials_management_sha.Text.{
  Text, codes, is_empty, is_space, lstrip, rstrip, strip, ends_with, decimal,
}
use materials_management_sha.Text.Strip.{
  lstrip-lstrip, rstrip-rstrip, rstrip-lstrip, empty_text, is_empty-append, rstrip-append,
}
use materials_management_sha.Text.Affix.{without_suffix-append, ends_with-append}
use materials_management_sha.Notes.{
  tx_marker, or_empty, or_none, append_tx_marker, cut_tx_marker, remove_tx_marker, event_note,
}

lstrip-append : (x m : Text) → lstrip m ≡ m → lstrip (x ++ m) ≡ lstrip x ++ m
unfolding lstrip
lstrip-append [] m h = h
lstrip-append (c ∷ x) m h = ground (arith, lstrip-append x m h)

marker_full : (n : ℕ) → is_empty (tx_marker n) ≡ false
unfolding tx_marker is_empty
marker_full n = refl

lstrip-marker : (n : ℕ) → lstrip (tx_marker n) ≡ tx_marker n
unfolding tx_marker lstrip is_space
lstrip-marker n = refl

closing : rstrip (codes "]]") ≡ codes "]]"
unfolding rstrip is_empty is_space
closing = refl

closing_full : is_empty (codes "]]") ≡ false
unfolding is_empty
closing_full = refl

rstrip-marker : (n : ℕ) → rstrip (tx_marker n) ≡ tx_marker n
unfolding tx_marker
rstrip-marker n =
    rstrip-append (codes "[[tx:") (decimal n ++ codes "]]")
      (is_empty-append (decimal n) (codes "]]") closing_full)
      (rstrip-append (decimal n) (codes "]]") closing_full closing)

-- What `append_tx_marker` writes when there is a note.
append_shape :
    (base : Text) (n : ℕ)
    → strip (base ++ (codes " " ++ tx_marker n)) ≡ lstrip (base ++ codes " ") ++ tx_marker n
unfolding strip
append_shape base n = rw (← append_assoc base (codes " ") (tx_marker n)) (
    rw (rstrip-append (base ++ codes " ") (tx_marker n) (marker_full n) (rstrip-marker n))
      (lstrip-append (base ++ codes " ") (tx_marker n) (lstrip-marker n)))

-- The note that an append writes: what the note was, without blanks at its ends, and the marker.
before_marker : Text → Text
before_marker base = if is_empty base then [] else lstrip (base ++ codes " ")

append_parts :
    (note : Option Text) (n : ℕ)
    → append_tx_marker note n ≡ before_marker (rstrip (or_empty note)) ++ tx_marker n
unfolding append_tx_marker before_marker
append_parts note n = elim (Bool-cases (is_empty (rstrip (or_empty note)))) [
  | inl e ↦ rw e
  | inr e ↦ rw e (append_shape (rstrip (or_empty note)) n)
]

blank : rstrip (codes " ") ≡ []
unfolding rstrip is_empty is_space
blank = refl

rstrip-append_blank : (x : Text) → rstrip (x ++ codes " ") ≡ rstrip x
unfolding rstrip
rstrip-append_blank [] = blank
rstrip-append_blank (c ∷ x) = ground (arith, rstrip-append_blank x)

strip-before_marker : (x : Text) → strip (before_marker (rstrip x)) ≡ strip x
unfolding before_marker strip lstrip rstrip
strip-before_marker x = elim (Bool-cases (is_empty (rstrip x))) [
  | inl e ↦ rw e (rw (empty_text (rstrip x) e))
  | inr e ↦ rw e (
      ap lstrip (rstrip-lstrip (rstrip x ++ codes " "))
      ∙ (lstrip-lstrip (rstrip (rstrip x ++ codes " "))
          ∙ ap lstrip (rstrip-append_blank (rstrip x) ∙ rstrip-rstrip x)))
]

-- The note of an event ends with the marker of its transaction, whatever note the row had and
-- whatever note the caller gives: the `LIKE '%[[tx:N]]'` of an undo finds the row.
pub event_note-ends_with :
    (override_note existing_note : Option Text) (n : ℕ)
    → ends_with (tx_marker n) (event_note override_note existing_note n) ≡ true
unfolding event_note
event_note-ends_with (some t) existing_note n =
    rw (append_parts (some t) n) (ends_with-append (before_marker (rstrip t)) (tx_marker n))
event_note-ends_with none existing_note n = rw (append_parts (remove_tx_marker existing_note n) n) (
    ends_with-append (before_marker (rstrip (or_empty (remove_tx_marker existing_note n))))
      (tx_marker n))

cut-append : (before : Text) (n : ℕ) → cut_tx_marker n (before ++ tx_marker n) ≡ before
unfolding cut_tx_marker
cut-append before n = rw (without_suffix-append before (tx_marker n), cut_tx_marker)

-- Removing the marker that was just appended gives the note back, without the blanks at its ends,
-- and no note where nothing is left.
pub remove_tx_marker-append_tx_marker :
    (note : Option Text) (n : ℕ)
    → remove_tx_marker (some (append_tx_marker note n)) n ≡ or_none (strip (or_empty note))
unfolding remove_tx_marker
remove_tx_marker-append_tx_marker note n = rw (append_parts note n) (
    ap or_none (
      ap strip (cut-append (before_marker (rstrip (or_empty note))) n)
      ∙ strip-before_marker (or_empty note)))
