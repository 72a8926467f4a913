-- ===== src/Text/Strip.antt =====
-- Python's `strip`, `lstrip` and `rstrip` of a text that is stripped already.
use materials_management_sha.Prelude.{◌≡◌, refl, ◌∙◌, ap, true, [], ◌∷◌, arith, false, ◌++◌}
use materials_management_sha.Text.{Text, is_empty, lstrip, rstrip, strip}

pub lstrip-lstrip : (s : Text) → lstrip (lstrip s) ≡ lstrip s
unfolding lstrip
lstrip-lstrip [] = refl
lstrip-lstrip (c ∷ s) = ground (arith, lstrip-lstrip s)

pub rstrip-rstrip : (s : Text) → rstrip (rstrip s) ≡ rstrip s
unfolding rstrip
rstrip-rstrip [] = refl
rstrip-rstrip (c ∷ s) = ground (arith, rstrip-rstrip s)

pub empty_text : (s : Text) → is_empty s ≡ true → s ≡ []
unfolding is_empty
empty_text [] h = refl
empty_text (c ∷ s) h = ground arith

pub rstrip-lstrip : (s : Text) → rstrip (lstrip s) ≡ lstrip (rstrip s)
unfolding rstrip lstrip
rstrip-lstrip [] = refl
rstrip-lstrip (c ∷ s) = ground (arith, rstrip-lstrip s, empty_text (rstrip s))

-- Stripping a stripped text changes nothing.
pub strip-strip : (s : Text) → strip (strip s) ≡ strip s
unfolding strip
strip-strip s =
    ap lstrip (rstrip-lstrip (rstrip s))
    ∙ (lstrip-lstrip (rstrip (rstrip s)) ∙ ap lstrip (rstrip-rstrip s))

pub is_empty-append : (x m : Text) → is_empty m ≡ false → is_empty (x ++ m) ≡ false
unfolding is_empty
is_empty-append [] m h = h
is_empty-append (c ∷ x) m h = refl

pub rstrip-append : (x m : Text) → is_empty m ≡ false → rstrip m ≡ m → rstrip (x ++ m) ≡ x ++ m
unfolding rstrip
rstrip-append [] m full h = h
rstrip-append (c ∷ x) m full h = ground (arith, rstrip-append x m full h, is_empty-append x m full)
