-- ===== src/Snapshot/Future.antt =====
-- The snapshot of a coming day, at STOCK.
use materials_management_sha.Snapshot.Started.{wants, take_required-stock}
use materials_management_sha.Prelude.{
  ℕ, ◌+◌, ◌-◌, ◌≡◌, refl, ◌∙◌, pos, neg_ℕ, Bool, true, false, ◌&&◌, ◌||◌, not, none, some, List, [],
  ◌∷◌, arith, ◌==◌, if◌then◌else◌, Bool-cases, inl, inr, sum_by,
}
use materials_management_sha.Text.{Text, codes, text_eq, text_eq_iff}
use materials_management_sha.Database.{Db, StockRow, Order}
use materials_management_sha.Stock.{find_quantity, quantity_at, is_at}
use materials_management_sha.Stock.Laws.{same, IsLedger}
use materials_management_sha.Supply.{available_at, incoming_reserved}
use materials_management_sha.Snapshot.{
  net_state, is_pending, is_free, add_pending, due_reserved, take_due, state_apply,
}
use materials_management_sha.Snapshot.Required.{Required}
use materials_management_sha.Snapshot.Query.{future_state}
use materials_management_sha.Snapshot.States.{state_apply-IsLedger, quantity_at-state_apply}

-- What a pending order of no project brings to the stock of an item.
unfoldable pub brings : ℕ → Db → ℕ → Order → ℕ
brings target s j o =
    if o.item_id == j && is_pending target o && is_free o.project_id
    then o.order_amount - incoming_reserved o.order_id s
    else 0

same-stock : (i j : ℕ) → same i (codes "STOCK") j (codes "STOCK") ≡ (i == j)
unfolding same text_eq
same-stock i j = ground arith

same-reserved : (i j : ℕ) → same i (codes "RESERVED") j (codes "STOCK") ≡ false
unfolding same text_eq
same-reserved i j = ground arith

add_pending-stock :
    (target : ℕ) (s : Db) (j : ℕ) (orders : List Order) (state : List StockRow)
    → IsLedger state
    → IsLedger (add_pending target s orders state)
      × (quantity_at j (codes "STOCK") (add_pending target s orders state)
          ≡ quantity_at j (codes "STOCK") state + sum_by (brings target s j) orders)
unfolding add_pending sum_by brings
add_pending-stock target s j [] state h = (h, omega arith)
add_pending-stock target s j (o ∷ orders) state h =
    let free = o.order_amount - incoming_reserved o.order_id s in
    let next = state_apply o.item_id (codes "STOCK") (pos free) state in
    elim (Bool-cases (is_pending target o && is_free o.project_id && not (free == 0))) [
      | inl e ↦
          let rest =
            add_pending-stock target s j orders next
              (state_apply-IsLedger o.item_id (codes "STOCK") (pos free) state h) in
          rw e (
            rest.0,
            ground (
              arith,
              rest.1,
              quantity_at-state_apply o.item_id j (codes "STOCK") (codes "STOCK") (pos free) state
                  h,
              same-stock o.item_id j,
            ),
          )
      | inr e ↦
          let rest = add_pending-stock target s j orders state h in
          rw e (rest.0, ground (arith, rest.1))
    ]

take_due-stock :
    (target : ℕ) (s : Db) (j : ℕ) (items : List ℕ) (state : List StockRow)
    → IsLedger state
    → quantity_at j (codes "STOCK") (take_due target s items state)
      ≡ quantity_at j (codes "STOCK") state
unfolding take_due
take_due-stock target s j [] state h = refl
take_due-stock target s j (i ∷ items) state h =
    let n = due_reserved target i s in
    let next = state_apply i (codes "RESERVED") (neg_ℕ n) state in
    elim (Bool-cases (n == 0)) [
      | inl e ↦ rw e (take_due-stock target s j items state h)
      | inr e ↦ rw e (
          take_due-stock target s j items next
            (state_apply-IsLedger i (codes "RESERVED") (neg_ℕ n) state h)
          ∙ ground (
            arith,
            quantity_at-state_apply i j (codes "RESERVED") (codes "STOCK") (neg_ℕ n) state h,
            same-reserved i j,
          ))
    ]

find_quantity-net_state :
    (s : Db) (j : ℕ) (m : Text) (state : List StockRow)
    → IsLedger state
    → find_quantity j m (net_state s state) ≡ (
        if text_eq m (codes "RESERVED") || available_at j m s == 0
        then none
        else if quantity_at j m state == 0
        then none
        else some (available_at j m s))
unfolding find_quantity net_state is_at quantity_at
find_quantity-net_state s j m [] h = ground arith
find_quantity-net_state s j m (r ∷ state) h =
    ground (arith, text_eq_iff r.location m, find_quantity-net_state s j m state h.2)

net_state-IsLedger :
    (s : Db) (state : List StockRow) → IsLedger state → IsLedger (net_state s state)
unfolding net_state quantity_at
net_state-IsLedger s [] h = tt
net_state-IsLedger s (r ∷ state) h = ground (
  arith,
  find_quantity-net_state s r.item_id r.location state h.2,
  net_state-IsLedger s state h.2,
)

net_state-stock :
    (s : Db) (j : ℕ)
    → IsLedger s.stock
    → quantity_at j (codes "STOCK") (net_state s s.stock) ≡ available_at j (codes "STOCK") s
unfolding quantity_at text_eq available_at
net_state-stock s j h = ground (arith, find_quantity-net_state s j (codes "STOCK") s.stock h)

-- From a well-formed ledger, the snapshot of a coming day has at STOCK, of every item, what is there
-- now, or with the basis net_available what no reservation holds of it, and what no reservation
-- awaits of the item's open orders of no project that are expected by the day; with net_available
-- less what the projects that have started still require of the item.
pub future_state-stock :
    (net : Bool) (target : ℕ) (required : List Required) (s : Db) (j : ℕ)
    → IsLedger s.stock
    → quantity_at j (codes "STOCK") (future_state net target required s) ≡ (
        if net
        then available_at j (codes "STOCK") s
          + sum_by (brings target s j) s.orders
          - sum_by (wants target s j) required
        else quantity_at j (codes "STOCK") s.stock + sum_by (brings target s j) s.orders)
unfolding future_state
future_state-stock true target required s j h =
    let added =
      add_pending-stock target s j s.orders (net_state s s.stock)
        (net_state-IsLedger s s.stock h) in
    let state = add_pending target s s.orders (net_state s s.stock) in
    omega
      (arith, take_required-stock target s j required state added.0, added.1, net_state-stock s j h)
future_state-stock false target required s j h =
    let added = add_pending-stock target s j s.orders s.stock h in
    take_due-stock target s j s.items (add_pending target s s.orders s.stock) added.0 ∙ added.1
