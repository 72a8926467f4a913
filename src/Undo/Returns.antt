-- ===== src/Undo/Returns.antt =====
-- Undos in backend/app/service.py that change the stock, and the log rows that they write.
use materials_management_sha.Prelude.{
  ℕ, ◌≡◌, refl, ◌∙◌, pos, neg_ℕ, ◌&&◌, not, Option, none, some, arith, ◌==◌, Bool-cases,
  Option-cases, inl, inr,
}
use materials_management_sha.Text.{Text, codes}
use materials_management_sha.Database.{Db, LogRow, Operation, move, consume, adjust, ◌>>◌}
use materials_management_sha.Database.Triples.{
  After, After-continue, After-reader, After-raise_if, After-map,
}
use materials_management_sha.Database.Table.{find}
use materials_management_sha.Stock.{apply_inventory_delta}
use materials_management_sha.Stock.Laws.{IsLedger}
use materials_management_sha.Movement.{or_else}
use materials_management_sha.Movement.Flows.{
  touches, Moved, apply_inventory_delta-Moved, Logged, log_transaction-Logged, Changed,
  Changed-Logged, part,
}
use materials_management_sha.Movement.Journal.{Journaled, move_Changed}
use materials_management_sha.Undo.{
  log_key, get_transaction, undo_batch, log_undo, quantity_of, undoable, undo_move, undo_arrival,
  is_named, undo_increase, undo_decrease, undo_adjust,
}
use materials_management_sha.Undo.Books.{SameBooks, conversions-SameBooks}

undoable-After :
    (i n : ℕ) (l : Option Text) (s : Db) → After (λ m s'. (s' ≡ s) × Unit {0}) (undoable i n l s)
unfolding undoable
undoable-After i n l s =
    After-raise_if (λ m s'. (s' ≡ s) × Unit {0}) (quantity_of i l s == 0) _ _ s λ _. (refl, tt)

pub get_transaction-After :
    (id : ℕ) (s : Db)
    → After (λ row s'. (s' ≡ s) × (find log_key id s.log ≡ some row)) (get_transaction id s)
unfolding get_transaction
get_transaction-After id s = elim (Option-cases (find log_key id s.log)) [
  | inl missing ↦ rw missing tt
  | inr (row, found) ↦ rw found (refl, refl)
]

-- A change of stock that was made, and the log row behind it.
pub logged_undo :
    (id : ℕ) (op : Operation) (i n : ℕ) (a b note : Option Text) (s t : Db)
    → Changed (part b i n) (part a i n) s t
    → After (Journaled s) (log_undo id op i n a b note t)
unfolding log_undo
logged_undo id op i n a b note s t changed =
    After-map (Logged op i n a b t) (Journaled s) _
      (log_transaction-Logged op i (pos n) a b note (undo_batch id) (some id) t)
      λ row u logged. Changed-Logged op i n a b s t u row changed logged

out_Changed :
    (i n : ℕ) (l : Option Text) (s t u : Db)
    → Moved i l (neg_ℕ n) s t
    → SameBooks t u
    → Changed (part none i n) (part l i n) s u
unfolding touches
out_Changed i n l s t u moved same =
    (same.1 ∙ moved.0, rw same.0 moved.1, λ j m. rw same.0 (ground (arith, moved.2 j m)))

in_Changed :
    (i n : ℕ) (l : Option Text) (s t : Db)
    → Moved i l (pos n) s t
    → Changed (part l i n) (part none i n) s t
unfolding touches
in_Changed i n l s t moved = (moved.0, moved.1, λ j m. ground (arith, moved.2 j m))

pub stays_Changed :
    (i n : ℕ) (s t : Db)
    → IsLedger s.stock
    → SameBooks s t
    → Changed (part none i n) (part none i n) s t
unfolding touches
stays_Changed i n s t h same = (same.1, rw same.0 h, λ j m. rw same.0)

pub undo_move-Journals :
    (id : ℕ) (row : LogRow) (note : Option Text) (s : Db)
    → IsLedger s.stock
    → After (Journaled s) (undo_move id row note s)
unfolding undo_move
undo_move-Journals id row note s h =
    After-reader (λ _. Unit {0}) (Journaled s) _ _ s
      (undoable-After row.item_id row.quantity row.to_location s)
      λ n _.
        After-continue (λ _ t. Moved row.item_id row.to_location (neg_ℕ n) s t) (Journaled s) _ _
          (apply_inventory_delta-Moved row.item_id row.to_location (neg_ℕ n) s h)
          λ _ t out.
            After-continue (λ _ u. Moved row.item_id row.from_location (pos n) t u) (Journaled s) _
              _ (apply_inventory_delta-Moved row.item_id row.from_location (pos n) t out.1)
              λ _ u enter.
                logged_undo id move row.item_id n row.to_location row.from_location note s u
                  (move_Changed row.item_id n row.to_location row.from_location s t u out enter)

pub undo_arrival-Journals :
    (id : ℕ) (row : LogRow) (note : Option Text) (s : Db)
    → IsLedger s.stock
    → After (Journaled s) (undo_arrival id row note s)
unfolding undo_arrival
undo_arrival-Journals id row note s h =
    let l = or_else row.to_location (some (codes "STOCK")) in
    After-reader (λ _. Unit {0}) (Journaled s) _ _ s (undoable-After row.item_id row.quantity l s)
      λ n _.
        After-continue (λ _ t. Moved row.item_id l (neg_ℕ n) s t) (Journaled s) _ _
          (apply_inventory_delta-Moved row.item_id l (neg_ℕ n) s h)
          λ _ t out.
            After-continue (λ _ u. SameBooks t u) (Journaled s) _ _ (conversions-SameBooks id n t)
              λ _ u same.
                logged_undo id consume row.item_id n l none note s u
                  (out_Changed row.item_id n l s t u out same)

-- Stock that an undo brings back.
pub give_back-Journals :
    (id : ℕ) (i n : ℕ) (l note : Option Text) (s : Db)
    → IsLedger s.stock
    → After
        (Journaled s)
        ((apply_inventory_delta i l (pos n) >> log_undo id adjust i n none l note) s)
give_back-Journals id i n l note s h =
    After-continue (λ _ t. Moved i l (pos n) s t) (Journaled s) _ _
      (apply_inventory_delta-Moved i l (pos n) s h)
      λ _ t enter. logged_undo id adjust i n none l note s t (in_Changed i n l s t enter)

undo_increase-Journals :
    (id : ℕ) (row : LogRow) (note : Option Text) (s : Db)
    → IsLedger s.stock
    → After (Journaled s) (undo_increase id row note s)
unfolding undo_increase
undo_increase-Journals id row note s h =
    After-reader (λ _. Unit {0}) (Journaled s) _ _ s
      (undoable-After row.item_id row.quantity row.to_location s)
      λ n _.
        After-continue (λ _ t. Moved row.item_id row.to_location (neg_ℕ n) s t) (Journaled s) _ _
          (apply_inventory_delta-Moved row.item_id row.to_location (neg_ℕ n) s h)
          λ _ t out.
            logged_undo id adjust row.item_id n row.to_location none note s t
              (out_Changed row.item_id n row.to_location s t t out (refl, refl))

pub undo_adjust-Journals :
    (id : ℕ) (row : LogRow) (note : Option Text) (s : Db)
    → IsLedger s.stock
    → After (Journaled s) (undo_adjust id row note s)
unfolding undo_adjust undo_decrease
undo_adjust-Journals id row note s h =
    elim (Bool-cases (is_named row.to_location && not (is_named row.from_location))) [
      | inl up ↦ rw up (undo_increase-Journals id row note s h)
      | inr up ↦ elim (Bool-cases (is_named row.from_location && not (is_named row.to_location))) [
        | inl down ↦
            rw (up, down)
              (give_back-Journals id row.item_id row.quantity row.from_location note s h)
        | inr down ↦ rw (up, down) (undo_move-Journals id row note s h)
      ]
    ]
