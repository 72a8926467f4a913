-- ===== src/Orders/Merge.antt =====
-- `merge_open_orders` of backend/app/service.py.
use materials_management_sha.Prelude.{
  ℕ, ◌+◌, ◌≡◌, ◌≢◌, refl, ◌∙◌, false, ◌||◌, not, Option, none, some, List, arith, ◌==◌,
  if◌then◌else◌, sum_by, Option-cases, inl, inr, sym, Bool,
}
use materials_management_sha.Database.{Db, Order, ◌>>◌, eta_merge}
use materials_management_sha.Database.Triples.{After, After-reader, After-raise_if}
use materials_management_sha.Database.Table.{find, update, delete, IsKeyed}
use materials_management_sha.Database.Table.Laws.{
  find-update_ne, sum_by-update, IsKeyed-update, find-update_self,
}
use materials_management_sha.Database.Table.Deletes.{
  sum_by-delete, find-delete_self, find-delete_ne,
}
use materials_management_sha.Orders.{
  order_key, get_order, assert_order_is_locally_managed, is_arrived, original_quantity, absorb,
  same_scope, or_date, delete_order_row, record_order_lineage_event, merge_open_orders,
}

-- The open amount of an item, over all its orders that have not arrived.
unfoldable pub open_weight : ℕ → Order → ℕ
unfolding is_arrived
open_weight j o = if is_arrived o.status || not (o.item_id == j) then 0 else o.order_amount

unfoldable pub open_amount : ℕ → List Order → ℕ
open_amount j orders = sum_by (open_weight j) orders

-- The date after a merge: the one that is given, or else the target's, or else the source's.
unfoldable pub IsMergedDate : Option ℕ → Option ℕ → Option ℕ → Option ℕ → Type 0
IsMergedDate (some given) target source date = (date ≡ some given)
IsMergedDate none (some own) source date = (date ≡ some own)
IsMergedDate none none source date = (date ≡ source)

-- The source `a` is gone and the target `b` has become `r'`, which has the amounts of both, is open
-- and has the item, the quotation, the purchase order and the project of the target; other orders,
-- and the open amount of every item, are as they were.
abbrev pub Merged : ℕ → ℕ → Option ℕ → Db → Order → Db → Type 0
Merged source target given s r' s' =
    (a b : Order) × (find order_key source s.orders ≡ some a)
    × (find order_key target s.orders ≡ some b)
    × (r'.order_amount ≡ b.order_amount + a.order_amount)
    × (r'.ordered_quantity ≡ some (original_quantity b + original_quantity a))
    × IsMergedDate given b.expected_arrival a.expected_arrival r'.expected_arrival
    × (is_arrived r'.status ≡ false)
    × (r'.item_id ≡ b.item_id)
    × (r'.quotation_id ≡ b.quotation_id)
    × (r'.purchase_order_id ≡ b.purchase_order_id)
    × (r'.project_id ≡ b.project_id)
    × (find order_key target s'.orders ≡ some r')
    × (find order_key source s'.orders ≡ none)
    × ((k : ℕ) → k ≢ source → k ≢ target → find order_key k s'.orders ≡ find order_key k s.orders)
    × ((j : ℕ) → open_amount j s'.orders ≡ open_amount j s.orders)

pub get_order-After :
    (id : ℕ) (s : Db)
    → After (λ o s'. (s' ≡ s) × (find order_key id s.orders ≡ some o)) (get_order id s)
unfolding get_order
get_order-After id s = elim (Option-cases (find order_key id s.orders)) [
  | inl missing ↦ rw missing tt
  | inr (o, e) ↦ rw e (refl, refl)
]

pub local-After :
    (o : Order) (s : Db) → After (λ _ s'. (s' ≡ s) × Unit {0}) (assert_order_is_locally_managed o s)
unfolding assert_order_is_locally_managed
local-After o s = ground arith

-- The open amounts: what the source loses the target gains.
absorbed :
    (j source target : ℕ) (eta : Option ℕ) (orders : List Order) (a b : Order)
    → IsKeyed order_key orders
    → source ≢ target
    → find order_key source orders ≡ some a
    → find order_key target orders ≡ some b
    → is_arrived a.status ≡ false
    → is_arrived b.status ≡ false
    → a.item_id ≡ b.item_id
    → open_amount j (delete order_key source (update order_key target (absorb a b eta) orders))
      ≡ open_amount j orders
unfolding open_amount open_weight absorb is_arrived
absorbed j source target eta orders a b keyed ne ea eb open_a open_b same =
    let f = absorb a b eta in
    let rows = update order_key target f orders in
    ground (
      arith,
      sum_by-update order_key target f (λ o. refl) (open_weight j) orders b keyed eb,
      sum_by-delete order_key source (open_weight j) rows a
          (IsKeyed-update order_key target f (λ o. refl) orders keyed)
          (find-update_ne order_key target f (λ o. refl) source orders ne ∙ ea),
    )

scope-item : (a b : Order) → not (same_scope a b) ≡ false → a.item_id ≡ b.item_id
unfolding same_scope
scope-item a b h = ground arith

both_open : (x y : Bool) → (x || y) ≡ false → (x ≡ false) × (y ≡ false)
both_open x y h = ground arith

merged_date :
    (given target source : Option ℕ)
    → IsMergedDate given target source (or_date given (or_date target source))
unfolding IsMergedDate or_date
merged_date (some d) target source = refl
merged_date none (some d) source = refl
merged_date none none source = refl

-- The three statements behind the guards, and the last reading.
merge_rest :
    (source target : ℕ) (given : Option ℕ) (s : Db) (a b : Order)
    → IsKeyed order_key s.orders
    → source ≢ target
    → find order_key source s.orders ≡ some a
    → find order_key target s.orders ≡ some b
    → is_arrived a.status ≡ false
    → is_arrived b.status ≡ false
    → a.item_id ≡ b.item_id
    → let eta = or_date given (or_date b.expected_arrival a.expected_arrival) in
      After (Merged source target given s) (
        (delete_order_row source
            >> (record_order_lineage_event eta_merge source target a.order_amount a.expected_arrival
                  eta
                >> get_order target))
          (record s { orders = update order_key target (absorb a b eta) s.orders }))
unfolding delete_order_row record_order_lineage_event get_order absorb is_arrived
merge_rest source target given s a b keyed ne ea eb open_a open_b same =
    let eta = or_date given (or_date b.expected_arrival a.expected_arrival) in
    let f = absorb a b eta in
    let rows = update order_key target f s.orders in
    let read : find order_key target (delete order_key source rows) ≡ some (f b) =
      find-delete_ne order_key source target rows (λ e. ne (sym e))
      ∙ find-update_self order_key target f (λ o. refl) s.orders b eb in
    rw read (
      a,
      b,
      ea,
      eb,
      refl,
      refl,
      merged_date given b.expected_arrival a.expected_arrival,
      refl,
      refl,
      refl,
      refl,
      refl,
      read,
      find-delete_self order_key source rows,
      λ k nk mk.
          find-delete_ne order_key source k rows nk
          ∙ find-update_ne order_key target f (λ o. refl) k s.orders mk,
      λ j. absorbed j source target eta s.orders a b keyed ne ea eb open_a open_b same,
    )

-- Where no key of the orders stands twice, a merge that returns has removed the source and given its
-- amounts to the target, which stays open with its item, quotation, purchase order and project and
-- takes the date that is given, or else keeps its own, or else takes the source's; every other order
-- and the open amount of every item are as they were.
pub merge_open_orders-Merged :
    (source target : ℕ) (expected_arrival : Option ℕ) (s : Db)
    → IsKeyed order_key s.orders
    → After
        (Merged source target expected_arrival s)
        (merge_open_orders source target expected_arrival s)
unfolding merge_open_orders
merge_open_orders-Merged source target eta s keyed =
    let Q = Merged source target eta s in
    After-raise_if Q (source == target) _ _ s λ differ.
      After-reader (λ a. find order_key source s.orders ≡ some a) Q _ _ s (get_order-After source s)
        λ a ea.
          After-reader (λ b. find order_key target s.orders ≡ some b) Q _ _ s
            (get_order-After target s)
            λ b eb.
              After-reader (λ _. Unit) Q _ _ s (local-After a s)
                λ _ _.
                  After-reader (λ _. Unit) Q _ _ s (local-After b s)
                    λ _ _.
                      After-raise_if Q (is_arrived a.status || is_arrived b.status) _ _ s λ live.
                        After-raise_if Q (not (same_scope a b)) _ _ s λ scope.
                          let opens = both_open (is_arrived a.status) (is_arrived b.status) live in
                          merge_rest source target eta s a b keyed (ground arith) ea eb opens.0
                            opens.1 (scope-item a b scope)
