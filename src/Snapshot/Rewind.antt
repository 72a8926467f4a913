-- ===== src/Snapshot/Rewind.antt =====
-- The change that a row of the transaction log describes, taken back from a state.
use materials_management_sha.Undo.{is_named}
use mathlib.Core.Path.{subst}
use materials_management_sha.Prelude.{
  ℕ, ◌+◌, ◌-◌, ◌≡◌, refl, ℤ, pos_part, neg_part, true, false, Option, none, some, List, arith,
  if◌then◌else◌, ◌∙◌, pos, neg_ℕ, ◌&&◌, not,
}
use materials_management_sha.Text.{
  Text, codes, strip, is_empty, text_eq_iff, lstrip, rstrip, is_space, text_eq,
}
use materials_management_sha.Database.{
  StockRow, LogRow, Operation, move, consume, reserve, adjust, arrival,
}
use materials_management_sha.Stock.{quantity_at}
use materials_management_sha.Stock.Laws.{same, IsLedger}
use materials_management_sha.Movement.{same_location}
use materials_management_sha.Movement.Flows.{touches}
use materials_management_sha.Snapshot.{apply_column, rewind_row, state_apply}
use materials_management_sha.Snapshot.States.{state_apply-IsLedger, quantity_at-state_apply}

-- A column that names a location as the ledger does, or none.
unfoldable pub IsColumn : Option Text → Type 0
IsColumn none = Unit
IsColumn (some l) = (strip l ≡ l) × (is_empty l ≡ false)

-- A row whose columns say what its operation did to the ledger.
unfoldable pub IsPlainFor : Operation → Option Text → Option Text → Type 0
IsPlainFor move a b = IsColumn a × IsColumn b × (same_location a b ≡ false)
IsPlainFor adjust a b = IsColumn a × IsColumn b × (same_location a b ≡ false)
IsPlainFor consume a b = IsColumn a × (b ≡ none)
IsPlainFor arrival a b = (a ≡ none) × (b ≡ some (codes "STOCK"))
IsPlainFor reserve a b = (a ≡ some (codes "STOCK")) × (b ≡ some (codes "RESERVED"))

unfoldable pub IsPlain : LogRow → Type 0
IsPlain r = IsPlainFor r.operation_type r.from_location r.to_location

-- A state with the quantities of `q`.
pub record Shows (q : ℕ → Text → ℕ) (state : List StockRow) : Type 0 where
  pub ledger : IsLedger state
  pub shown : (j : ℕ) (m : Text) → quantity_at j m state ≡ q j m

apply_column-Shows :
    (i : ℕ) (c : Option Text) (d : ℤ) (q : ℕ → Text → ℕ) (state : List StockRow)
    → IsColumn c
    → Shows q state
    → Shows
        (λ j m. if touches c i j m then q j m + pos_part d - neg_part d else q j m)
        (apply_column i c d state)
unfolding apply_column IsColumn touches
apply_column-Shows i none d q state c h = h
apply_column-Shows i (some l) d q state c h =
    rw (c.0, c.1)
      (record {
        ledger = state_apply-IsLedger i l d state h.ledger;
        shown =
            λ j m. ground (arith, h.shown j m, quantity_at-state_apply i j l m d state h.ledger);
      })

touches_once :
    (a b : Option Text) (i j : ℕ) (m : Text)
    → IsColumn a
    → IsColumn b
    → same_location a b ≡ false
    → touches a i j m ≡ true
    → touches b i j m ≡ false
unfolding IsColumn touches same_location same
touches_once none b i j m ca cb d h = absurd cc
touches_once (some l) none i j m ca cb d h = refl
touches_once (some l) (some k) i j m ca cb d h =
    ground (arith, ca.0, cb.0, text_eq_iff (strip l) m, text_eq_iff (strip k) m, text_eq_iff l k)

Shows-as :
    (p q : ℕ → Text → ℕ) (state : List StockRow)
    → ((j : ℕ) (m : Text) → p j m ≡ q j m)
    → Shows p state
    → Shows q state
Shows-as p q state e h = record { ledger = h.ledger; shown = λ j m. h.shown j m ∙ e j m }

-- A change from `q` to `p` that the columns of a row say.
unfoldable pub Says : ℕ → ℕ → Option Text → Option Text → (ℕ → Text → ℕ) → (ℕ → Text → ℕ) → Type 0
Says i n a b q p =
    (j : ℕ) (m : Text)
    → p j m + (if touches a i j m then n else 0) ≡ q j m + (if touches b i j m then n else 0)

both-Shows :
    (i n : ℕ) (a b : Option Text) (q p : ℕ → Text → ℕ) (state : List StockRow)
    → IsColumn a
    → IsColumn b
    → same_location a b ≡ false
    → Says i n a b q p
    → Shows p state
    → Shows q (apply_column i a (pos n) (apply_column i b (neg_ℕ n) state))
unfolding Says
both-Shows i n a b q p state ca cb d e h =
    Shows-as _ q _ (λ j m. ground (arith, e j m, touches_once a b i j m ca cb d))
      (apply_column-Shows i a (pos n) _ _ ca (apply_column-Shows i b (neg_ℕ n) p state cb h))

from-Shows :
    (i n : ℕ) (a : Option Text) (q p : ℕ → Text → ℕ) (state : List StockRow)
    → IsColumn a
    → Says i n a none q p
    → Shows p state
    → Shows q (apply_column i a (pos n) state)
unfolding Says touches
from-Shows i n a q p state ca e h =
    Shows-as _ q _ (λ j m. ground (arith, e j m)) (apply_column-Shows i a (pos n) p state ca h)

to-Shows :
    (i n : ℕ) (b : Option Text) (q p : ℕ → Text → ℕ) (state : List StockRow)
    → IsColumn b
    → Says i n none b q p
    → Shows p state
    → Shows q (apply_column i b (neg_ℕ n) state)
unfolding Says touches
to-Shows i n b q p state cb e h =
    Shows-as _ q _ (λ j m. ground (arith, e j m)) (apply_column-Shows i b (neg_ℕ n) p state cb h)

stock-IsColumn : IsColumn (some (codes "STOCK")) × IsColumn (some (codes "RESERVED"))
unfolding IsColumn strip lstrip rstrip is_space is_empty
stock-IsColumn = ((refl, refl), (refl, refl))

apply_column-named :
    (i : ℕ) (d : ℤ) (state : List StockRow)
    → (apply_column i (some (codes "STOCK")) d state ≡ state_apply i (codes "STOCK") d state)
      × (apply_column i (some (codes "RESERVED")) d state
          ≡ state_apply i (codes "RESERVED") d state)
unfolding apply_column is_empty
apply_column-named i d state = (refl, refl)

apart : same_location (some (codes "STOCK")) (some (codes "RESERVED")) ≡ false
unfolding same_location text_eq
apart = refl

-- The change that a row says, taken back.
abbrev Rewinds : LogRow → Operation → Type 0
Rewinds row op =
    (q p : ℕ → Text → ℕ) (state : List StockRow)
    → row.operation_type ≡ op
    → IsPlainFor op row.from_location row.to_location
    → Says row.item_id row.quantity row.from_location row.to_location q p
    → Shows p state
    → Shows q (rewind_row row state)

rewind-move : (row : LogRow) → Rewinds row move
unfolding rewind_row IsPlainFor
rewind-move row q p state e c s h = rw e (
    both-Shows row.item_id row.quantity row.from_location row.to_location q p state c.0 c.1 c.2 s h)

rewind-consume : (row : LogRow) → Rewinds row consume
unfolding rewind_row IsPlainFor
rewind-consume row q p state e c s h = rw e (
    from-Shows row.item_id row.quantity row.from_location q p state c.0
      (subst (λ b. Says row.item_id row.quantity row.from_location b q p) c.1 s) h)

-- The three cases of an adjustment are one: a column that names no location changes nothing.
adjust_both :
    (i n : ℕ) (a b : Option Text) (state : List StockRow)
    → (if is_named b && not (is_named a)
        then apply_column i b (neg_ℕ n) state
        else if is_named a && not (is_named b)
        then apply_column i a (pos n) state
        else apply_column i a (pos n) (apply_column i b (neg_ℕ n) state))
      ≡ apply_column i a (pos n) (apply_column i b (neg_ℕ n) state)
unfolding apply_column is_named
adjust_both i n none none state = refl
adjust_both i n none (some l) state = ground arith
adjust_both i n (some k) none state = ground arith
adjust_both i n (some k) (some l) state = ground arith

rewind-adjust : (row : LogRow) → Rewinds row adjust
unfolding rewind_row IsPlainFor
rewind-adjust row q p state e c s h =
    rw (e, adjust_both row.item_id row.quantity row.from_location row.to_location state)
      (both-Shows row.item_id row.quantity row.from_location row.to_location q p state c.0 c.1 c.2 s
        h)

rewind-arrival : (row : LogRow) → Rewinds row arrival
unfolding rewind_row IsPlainFor
rewind-arrival row q p state e c s h =
    rw (e, ← (apply_column-named row.item_id (neg_ℕ row.quantity) state).0)
      (to-Shows row.item_id row.quantity (some (codes "STOCK")) q p state stock-IsColumn.0
        (subst (λ a. Says row.item_id row.quantity a (some (codes "STOCK")) q p) c.0
          (subst (λ b. Says row.item_id row.quantity row.from_location b q p) c.1 s))
        h)

rewind-reserve : (row : LogRow) → Rewinds row reserve
unfolding rewind_row IsPlainFor
rewind-reserve row q p state e c s h =
    let n = row.quantity in
    rw
      (
        e,
        ← (apply_column-named row.item_id (neg_ℕ n) state).1,
        ← (apply_column-named row.item_id (pos n) _).0,
      )
      (both-Shows row.item_id n (some (codes "STOCK")) (some (codes "RESERVED")) q p state
        stock-IsColumn.0 stock-IsColumn.1 apart
        (subst (λ a. Says row.item_id n a (some (codes "RESERVED")) q p) c.0
          (subst (λ b. Says row.item_id n row.from_location b q p) c.1 s))
        h)

rewind-any : (row : LogRow) (op : Operation) → Rewinds row op
rewind-any row move = rewind-move row
rewind-any row consume = rewind-consume row
rewind-any row adjust = rewind-adjust row
rewind-any row arrival = rewind-arrival row
rewind-any row reserve = rewind-reserve row

-- The change that a plain row says, taken back, gives the quantities before it.
pub rewind_row-Shows :
    (row : LogRow) (q p : ℕ → Text → ℕ) (state : List StockRow)
    → IsPlain row
    → Says row.item_id row.quantity row.from_location row.to_location q p
    → Shows p state
    → Shows q (rewind_row row state)
unfolding IsPlain
rewind_row-Shows row q p state c s h = rewind-any row row.operation_type q p state refl c s h
