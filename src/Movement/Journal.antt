-- ===== src/Movement/Journal.antt =====
-- The movements of backend/app/service.py and the rows of the log that they write.
use materials_management_sha.Prelude.{
  ℕ, zero, suc, ◌+◌, ◌≡◌, refl, ℤ, pos, negsuc, pos_part, neg_part, neg_ℕ, true, Option, none, some,
  List, [], ◌∷◌, arith, Bool-cases, inl, inr, ◌<◌, ◌∙◌,
}
use materials_management_sha.Text.{Text}
use materials_management_sha.Database.{Db, Operation, consume, adjust, move, reserve, arrival, ◌>>◌}
use materials_management_sha.Database.Triples.{
  After, After-continue, After-raise_if, After-map, After-reader, After-trivial,
}
use materials_management_sha.Stock.{has_item, is_positive, apply_inventory_delta}
use materials_management_sha.Stock.Laws.{IsLedger}
use materials_management_sha.Movement.{
  require_positive, require_item, log_transaction, move_inventory, same_location, consume_inventory,
  adjust_inventory, is_zero, taken, given, batch_operation, run_batch, batch_inventory_operations,
  BatchOperation,
}
use materials_management_sha.Movement.Flows.{
  touches, Journals, Journals-trans, Moved, apply_inventory_delta-Moved, Logged,
  log_transaction-Logged, Changed, part, Changed-Logged,
}

pub require_positive-After :
    (q : ℤ) (s : Db) → After (λ n s'. (s' ≡ s) × ((q ≡ pos n) × (0 < n))) (require_positive q s)
unfolding require_positive is_positive
require_positive-After (pos zero) s = tt
require_positive-After (pos (suc n)) s = (refl, (refl, omega arith))
require_positive-After (negsuc n) s = tt

pub require_item-After :
    (i : ℕ) (s : Db) → After (λ _ s'. (s' ≡ s) × (has_item i s.items ≡ true)) (require_item i s)
unfolding require_item
require_item-After i s = elim (Bool-cases (has_item i s.items)) [
  | inl known ↦ rw known (refl, refl)
  | inr unknown ↦ rw unknown tt
]

abbrev pub Journaled : {A : Type 0} → Db → A → Db → Type 0
Journaled s _ s' = Journals s s'

-- Stock leaves one location and enters another.
pub move_Changed :
    (i n : ℕ) (from_location to_location : Option Text) (s t u : Db)
    → Moved i from_location (neg_ℕ n) s t
    → Moved i to_location (pos n) t u
    → Changed (part to_location i n) (part from_location i n) s u
move_Changed i n from_location to_location s t u out enter =
    (enter.0 ∙ out.0, enter.1, λ j m. ground (arith, out.2 j m, enter.2 j m))

-- A move that returns has logged what it did.
pub move_inventory-Journals :
    (i : ℕ) (q : ℤ) (from_location to_location note batch : Option Text) (op : Operation) (s : Db)
    → IsLedger s.stock
    → After (Journaled s) (move_inventory i q from_location to_location note batch op s)
unfolding move_inventory
move_inventory-Journals i q a b _ _ op s h =
    After-reader (λ n. (q ≡ pos n) × (0 < n)) (Journaled s) _ _ s (require_positive-After q s)
      λ n _. After-raise_if (Journaled s) (same_location a b) _ _ s λ _.
        After-reader (λ _. has_item i s.items ≡ true) (Journaled s) _ _ s (require_item-After i s)
          λ _ _.
            After-continue (λ _ t. Moved i a (neg_ℕ n) s t) (Journaled s) _ _
              (apply_inventory_delta-Moved i a (neg_ℕ n) s h)
              λ _ t out.
                After-continue (λ _ u. Moved i b (pos n) t u) (Journaled s) _ _
                  (apply_inventory_delta-Moved i b (pos n) t out.1)
                  λ _ u enter.
                    After-map (Logged op i n a b u) (Journaled s) _
                      (log_transaction-Logged op i (pos n) a b _ _ _ u)
                      λ row v logged.
                        Changed-Logged op i n a b s u v row (move_Changed i n a b s t u out enter)
                          logged

-- So has a consumption.
pub consume_inventory-Journals :
    (i : ℕ) (q : ℤ) (from_location note batch : Option Text) (s : Db)
    → IsLedger s.stock
    → After (Journaled s) (consume_inventory i q from_location note batch s)
unfolding consume_inventory touches
consume_inventory-Journals i q a _ _ s h =
    After-reader (λ n. (q ≡ pos n) × (0 < n)) (Journaled s) _ _ s (require_positive-After q s)
      λ n _.
        After-reader (λ _. has_item i s.items ≡ true) (Journaled s) _ _ s (require_item-After i s)
          λ _ _.
            After-continue (λ _ t. Moved i a (neg_ℕ n) s t) (Journaled s) _ _
              (apply_inventory_delta-Moved i a (neg_ℕ n) s h)
              λ _ t out.
                After-map (Logged consume i n a none t) (Journaled s) _
                  (log_transaction-Logged consume i (pos n) a none _ _ _ t)
                  λ row v logged.
                    Changed-Logged consume i n a none s t v row
                      (out.0, out.1, λ j m. ground (arith, out.2 j m)) logged

adjust_Changed :
    (i : ℕ) (d : ℤ) (l : Option Text) (s t : Db)
    → Moved i l d s t
    → Changed
        (part (given d l) i (pos_part d + neg_part d))
        (part (taken d l) i (pos_part d + neg_part d))
        s
        t
unfolding given taken touches
adjust_Changed i (pos zero) l s t moved = (moved.0, moved.1, λ j m. ground (arith, moved.2 j m))
adjust_Changed i (pos (suc n)) l s t moved = (moved.0, moved.1, λ j m. ground (arith, moved.2 j m))
adjust_Changed i (negsuc n) l s t moved = (moved.0, moved.1, λ j m. ground (arith, moved.2 j m))

-- So has an adjustment, whichever its sign.
pub adjust_inventory-Journals :
    (i : ℕ) (d : ℤ) (location note batch : Option Text) (s : Db)
    → IsLedger s.stock
    → After (Journaled s) (adjust_inventory i d location note batch s)
unfolding adjust_inventory
adjust_inventory-Journals i d l _ _ s h = After-raise_if (Journaled s) (is_zero d) _ _ s λ _.
    After-reader (λ _. has_item i s.items ≡ true) (Journaled s) _ _ s (require_item-After i s)
      λ _ _.
        After-continue (λ _ t. Moved i l d s t) (Journaled s) _ _
          (apply_inventory_delta-Moved i l d s h)
          λ _ t moved.
            After-map (Logged adjust i (pos_part d + neg_part d) (taken d l) (given d l) t)
              (Journaled s) _ (log_transaction-Logged adjust i _ _ _ _ _ _ t)
              λ row v logged.
                Changed-Logged adjust i (pos_part d + neg_part d) (taken d l) (given d l) s t v row
                  (adjust_Changed i d l s t moved) logged

-- The arrival of a batch: stock that enters, with no order behind it.
arrival_Journals :
    (i : ℕ) (q : ℤ) (l note batch : Option Text) (s : Db)
    → IsLedger s.stock
    → After
        (Journaled s)
        ((apply_inventory_delta i l q >> log_transaction arrival i q none l note batch none) s)
unfolding touches log_transaction is_positive
arrival_Journals i (pos n) l _ _ s h =
    After-continue (λ _ t. Moved i l (pos n) s t) (Journaled s) _ _
      (apply_inventory_delta-Moved i l (pos n) s h)
      λ _ t moved.
        After-map (Logged arrival i n none l t) (Journaled s) _
          (log_transaction-Logged arrival i (pos n) none l _ _ _ t)
          λ row v logged.
            Changed-Logged arrival i n none l s t v row
              (moved.0, moved.1, λ j m. ground (arith, moved.2 j m)) logged
arrival_Journals i (negsuc n) l _ _ s h =
    After-continue (λ _ t. Unit) (Journaled s) (apply_inventory_delta i l (negsuc n) s) _
      (After-trivial (apply_inventory_delta i l (negsuc n) s)) λ _ t _. tt

batch_operation-Journals :
    (batch : Option Text) (op : BatchOperation) (kind : Option Operation) (s : Db)
    → IsLedger s.stock
    → After (Journaled s) (batch_operation batch op kind s)
unfolding batch_operation
batch_operation-Journals batch op none s h = tt
batch_operation-Journals batch op (some move) s h = move_inventory-Journals _ _ _ _ _ _ _ s h
batch_operation-Journals batch op (some consume) s h = consume_inventory-Journals _ _ _ _ _ s h
batch_operation-Journals batch op (some reserve) s h = move_inventory-Journals _ _ _ _ _ _ _ s h
batch_operation-Journals batch op (some adjust) s h = adjust_inventory-Journals _ _ _ _ _ s h
batch_operation-Journals batch op (some arrival) s h = arrival_Journals _ _ _ _ _ s h

run_batch-Journals :
    (batch : Option Text) (ops : List BatchOperation) (s : Db)
    → IsLedger s.stock
    → After (Journaled s) (run_batch batch ops s)
unfolding run_batch
run_batch-Journals batch [] s h = (h, λ j m. refl)
run_batch-Journals batch (op ∷ ops) s h =
    After-continue (Journaled s) (Journaled s) _ _
      (batch_operation-Journals batch op op.operation_type s h)
      λ row t first.
        After-continue (Journaled t) (Journaled s) _ _ (run_batch-Journals batch ops t first.0)
          λ rows u rest. Journals-trans s t u first rest

-- From a well-formed ledger, a batch that returns has changed every quantity of the ledger by what
-- the log rows that it wrote say, and has left a well-formed ledger.
pub batch_inventory_operations-Journals :
    (fresh : Text) (ops : List BatchOperation) (batch : Option Text) (s : Db)
    → IsLedger s.stock
    → After (Journaled s) (batch_inventory_operations fresh ops batch s)
unfolding batch_inventory_operations
batch_inventory_operations-Journals fresh ops batch s h = run_batch-Journals _ ops s h
