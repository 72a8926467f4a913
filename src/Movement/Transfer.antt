-- ===== src/Movement/Transfer.antt =====
-- The conditions and the effect of `move_inventory` of backend/app/service.py.
use materials_management_sha.Movement.{
  require_positive, require_item, same_location, log_transaction, move_inventory,
}
use materials_management_sha.Prelude.{
  ℕ, zero, suc, ◌+◌, ◌-◌, ◌≤◌, ◌<◌, ◌≡◌, refl, ◌∙◌, ℤ, pos, negsuc, neg_ℕ, true, false, ◌&&◌, not,
  Option, none, some, List, [], ◌∷◌, ◌++◌, arith, Bool-cases, inl, inr, ◌==◌, ap,
}
use materials_management_sha.Text.{Text, text_eq, text_eq_iff, is_empty, strip}
use materials_management_sha.Database.{Db, LogRow, StockRow, Operation, Result, ok, err}
use materials_management_sha.Database.Triples.{
  After, After-lift, After-raise_if, Returns, Returns-continue, Returns-raise_if, Returns-of,
  Returns-map, After-both,
}
use materials_management_sha.Stock.{
  quantity_at, find_quantity, lower, apply_delta, put_stock, has_item, is_positive,
  require_non_empty, apply_inventory_delta, upsert, delete_row, set_quantity,
}
use materials_management_sha.Stock.Laws.{same, IsLedger}
use materials_management_sha.Movement.Flows.{touches, Moved, Logged, apply_inventory_delta-Moved}

lower_enough :
    (i n : ℕ) (l : Text) (rows : List StockRow) (found : Option ℕ)
    → find_quantity i l rows ≡ found
    → 0 < n
    → n ≤ quantity_at i l rows
    → (r : ℕ × List StockRow) × (lower i l n found rows ≡ ok r)
unfolding lower quantity_at
lower_enough i n l rows none e p h = absurd (ground arith)
lower_enough i n l rows (some q) e p h = elim (Bool-cases (q - n == 0)) [
  | inl empties ↦ ((0, delete_row i l rows), ground arith)
  | inr stays ↦ ((q - n, set_quantity i l (q - n) rows), ground arith)
]

neg_suc : (n : ℕ) → neg_ℕ (suc n) ≡ negsuc n
neg_suc n = ground arith

-- Taking no more than there is succeeds.
take_succeeds :
    (i n : ℕ) (l : Text) (s : Db)
    → 0 < n
    → is_empty (strip l) ≡ false
    → n ≤ quantity_at i (strip l) s.stock
    → (r : ℕ × Db) × (apply_inventory_delta i (some l) (neg_ℕ n) s ≡ ok r)
unfolding apply_inventory_delta require_non_empty apply_delta put_stock is_positive
take_succeeds i zero l s p full enough = absurd (omega arith)
take_succeeds i (suc n) l s p full enough =
    let (r, e) =
      lower_enough i (suc n) (strip l) s.stock (find_quantity i (strip l) s.stock) refl p enough in
    ((r.0, record s { stock = r.1 }), rw (neg_suc n) (rw full (rw e)))

-- Adding to a known item succeeds.
pub give_succeeds :
    (i n : ℕ) (l : Text) (s : Db)
    → is_empty (strip l) ≡ false
    → has_item i s.items ≡ true
    → 0 < n
    → (r : ℕ × Db) × (apply_inventory_delta i (some l) (pos n) s ≡ ok r)
unfolding apply_inventory_delta require_non_empty apply_delta put_stock is_positive
give_succeeds i zero l s full known p = absurd (omega arith)
give_succeeds i (suc n) l s full known p =
    let rows = upsert i (strip l) (suc n) s.stock in
    ((quantity_at i (strip l) rows, record s { stock = rows }), rw full (rw known))

put_stock-items :
    (s : Db) (x : Result (ℕ × List StockRow)) → After (λ _ s'. s'.items ≡ s.items) (put_stock x s)
unfolding put_stock
put_stock-items s (ok (q, rows)) = refl
put_stock-items s (err e) = tt

-- An item stays known while its stock changes.
abbrev Knows : ℕ → Db → Type 0
Knows i s = has_item i s.items ≡ true

delta-items :
    (i : ℕ) (l : Option Text) (d : ℤ) (s : Db)
    → After (λ _ s'. s'.items ≡ s.items) (apply_inventory_delta i l d s)
unfolding apply_inventory_delta
delta-items i l d s =
    After-lift (λ _ s'. s'.items ≡ s.items) (require_non_empty l) _ s
      λ n _.
        After-raise_if (λ _ s'. s'.items ≡ s.items) (is_positive d && not (has_item i s.items)) _ _
          s λ _. put_stock-items s (apply_delta i n d s.stock)

-- What a move of `n` has done: `n` units have left the one location and entered the other, no
-- other quantity has changed, and one log row says so.
abbrev pub Transferred : Operation → ℕ → ℕ → Text → Text → Db → LogRow → Db → Type 0
Transferred op i n a b s row s' =
    IsLedger s'.stock
    × (quantity_at i (strip a) s'.stock + n ≡ quantity_at i (strip a) s.stock)
    × (quantity_at i (strip b) s'.stock ≡ quantity_at i (strip b) s.stock + n)
    × ((j : ℕ) (m : Text)
        → same i (strip a) j m ≡ false
        → same i (strip b) j m ≡ false
        → quantity_at j m s'.stock ≡ quantity_at j m s.stock)
    × (s'.log ≡ s.log ++ row ∷ [])
    × (row.operation_type ≡ op)
    × (row.item_id ≡ i)
    × (row.quantity ≡ n)
    × (row.from_location ≡ some a)
    × (row.to_location ≡ some b)

same_self : (i : ℕ) (l : Text) → same i l i l ≡ true
unfolding same
same_self i l = ground (arith, text_eq_iff l l)

same_other : (i : ℕ) (l m : Text) → text_eq l m ≡ false → same i l i m ≡ false
unfolding same
same_other i l m h = ground arith

text_eq_sym : (l m : Text) → text_eq l m ≡ false → text_eq m l ≡ false
text_eq_sym l m h = ground (arith, text_eq_iff l m, text_eq_iff m l)

two_moves :
    (op : Operation) (i n : ℕ) (a b : Text) (s t u v : Db) (row : LogRow)
    → text_eq (strip a) (strip b) ≡ false
    → Moved i (some a) (neg_ℕ n) s t
    → Moved i (some b) (pos n) t u
    → Logged op i n (some a) (some b) u row v
    → Transferred op i n a b s row v
unfolding touches
two_moves op i n a b s t u v row ne out enter logged = rw logged.0 (
  enter.1,
  ground (
    arith,
    out.2 i (strip a),
    enter.2 i (strip a),
    same_self i (strip a),
    same_other i (strip b) (strip a) (text_eq_sym (strip a) (strip b) ne),
  ),
  ground (
    arith,
    out.2 i (strip b),
    enter.2 i (strip b),
    same_self i (strip b),
    same_other i (strip a) (strip b) ne,
  ),
  λ j m p q. ground (arith, out.2 j m, enter.2 j m),
  logged.1 ∙ ap (λ l. l ++ row ∷ []) (enter.0 ∙ out.0),
  logged.2,
  logged.3,
  logged.4,
  logged.5,
  logged.6,
)

text_ne_of_strip : (a b : Text) → text_eq (strip a) (strip b) ≡ false → text_eq a b ≡ false
text_ne_of_strip a b h = elim (Bool-cases (text_eq a b)) [
  | inl e ↦
      let same_strip = (text_eq_iff (strip a) (strip b)).1 (ap strip ((text_eq_iff a b).0 e)) in cc
  | inr e ↦ e
]

-- What the last two steps need of the database after a change of stock.
abbrev pub Ready : ℕ → Db → Db → ℕ → Option Text → ℤ → Type 0
Ready i s t n l d = Moved i l d s t × (t.items ≡ s.items)

pub take_Ready :
    (i n : ℕ) (l : Text) (s : Db)
    → IsLedger s.stock
    → 0 < n
    → is_empty (strip l) ≡ false
    → n ≤ quantity_at i (strip l) s.stock
    → Returns
        (λ _ t. Ready i s t n (some l) (neg_ℕ n))
        (apply_inventory_delta i (some l) (neg_ℕ n) s)
take_Ready i n l s h p full enough =
    Returns-of (λ _ t. Ready i s t n (some l) (neg_ℕ n)) _
      (After-both (λ _ t. Moved i (some l) (neg_ℕ n) s t) (λ _ t. t.items ≡ s.items) _
        (apply_inventory_delta-Moved i (some l) (neg_ℕ n) s h) (delta-items i (some l) (neg_ℕ n) s))
      (take_succeeds i n l s p full enough).1

pub give_Ready :
    (i n : ℕ) (l : Text) (s : Db)
    → IsLedger s.stock
    → 0 < n
    → is_empty (strip l) ≡ false
    → has_item i s.items ≡ true
    → Returns (λ _ t. Ready i s t n (some l) (pos n)) (apply_inventory_delta i (some l) (pos n) s)
give_Ready i n l s h p full known =
    Returns-of (λ _ t. Ready i s t n (some l) (pos n)) _
      (After-both (λ _ t. Moved i (some l) (pos n) s t) (λ _ t. t.items ≡ s.items) _
        (apply_inventory_delta-Moved i (some l) (pos n) s h) (delta-items i (some l) (pos n) s))
      (give_succeeds i n l s full known p).1

pub log_Returns :
    (op : Operation) (i n : ℕ) (a b note batch : Option Text) (undo_of : Option ℕ) (s : Db)
    → 0 < n
    → has_item i s.items ≡ true
    → Returns (Logged op i n a b s) (log_transaction op i (pos n) a b note batch undo_of s)
unfolding log_transaction is_positive
log_Returns op i zero a b _ _ _ s p known = absurd (omega arith)
log_Returns op i (suc n) a b _ _ _ s p known = rw known (refl, refl, refl, refl, refl, refl, refl)

-- From a well-formed ledger, a move of a positive quantity of a known item between two different
-- named locations succeeds where the source holds enough. It takes the quantity from the source
-- and adds it to the destination, leaves every other quantity, and appends one row to the log, with
-- the operation, the item, the quantity and the two locations as they were given.
pub move_inventory_lem :
    (op : Operation) (i n : ℕ) (a b : Text) (note batch : Option Text) (s : Db)
    → IsLedger s.stock
    → 0 < n
    → has_item i s.items ≡ true
    → is_empty (strip a) ≡ false
    → is_empty (strip b) ≡ false
    → text_eq (strip a) (strip b) ≡ false
    → n ≤ quantity_at i (strip a) s.stock
    → Returns
        (Transferred op i n a b s)
        (move_inventory i (pos n) (some a) (some b) note batch op s)
unfolding move_inventory require_positive require_item same_location is_positive
move_inventory_lem op i zero a b _ _ s h p known full_a full_b ne enough = absurd (omega arith)
move_inventory_lem op i (suc n) a b _ _ s h p known full_a full_b ne enough =
    Returns-raise_if (Transferred op i (suc n) a b s) (text_eq a b) _ _ s (text_ne_of_strip a b ne)
      (rw known (
        Returns-continue (λ _ t. Ready i s t (suc n) (some a) (neg_ℕ (suc n)))
          (Transferred op i (suc n) a b s) _ _ (take_Ready i (suc n) a s h p full_a enough)
          λ _ t out.
            Returns-continue (λ _ u. Ready i t u (suc n) (some b) (pos (suc n)))
              (Transferred op i (suc n) a b s) _ _
              (give_Ready i (suc n) b t out.0.1 p full_b (rw out.1 known))
              λ _ u enter.
                Returns-map (Logged op i (suc n) (some a) (some b) u)
                  (Transferred op i (suc n) a b s) _
                  (log_Returns op i (suc n) (some a) (some b) _ _ _ u p (rw (enter.1, out.1) known))
                  λ row v logged. two_moves op i (suc n) a b s t u v row ne out.0 enter.0 logged))
