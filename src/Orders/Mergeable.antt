-- ===== src/Orders/Mergeable.antt =====
-- The conditions of `merge_open_orders` of backend/app/service.py.
use materials_management_sha.Prelude.{
  ℕ, ◌≡◌, ◌≢◌, refl, ◌∙◌, sym, true, false, Option, some, arith, ◌==◌,
}
use materials_management_sha.Database.{Db, Order}
use materials_management_sha.Database.Triples.{Returns, Returns-continue}
use materials_management_sha.Database.Table.{find, update, delete, IsKeyed}
use materials_management_sha.Database.Table.Laws.{find-update_self}
use materials_management_sha.Database.Table.Deletes.{find-delete_ne}
use materials_management_sha.Reservation.Success.{Succeeds, both}
use materials_management_sha.Orders.{
  order_key, get_order, is_arrived, same_scope, or_date, absorb, delete_order_row,
  record_order_lineage_event, merge_open_orders,
}
use materials_management_sha.Orders.Success.{IsLocal, local-Returns}
use materials_management_sha.Orders.Merge.{Merged, merge_open_orders-Merged}

-- Two open orders that are managed here and agree in the keys of a merge.
abbrev pub IsMergeable : ℕ → ℕ → Order → Order → Db → Type 0
IsMergeable source target a b s =
    (find order_key source s.orders ≡ some a)
    × (find order_key target s.orders ≡ some b)
    × IsLocal a
    × IsLocal b
    × (is_arrived a.status ≡ false)
    × (is_arrived b.status ≡ false)
    × (same_scope a b ≡ true)

unequal : (a b : ℕ) → a ≢ b → (a == b) ≡ false
unequal a b ne = ground arith

absorb-key : (a b : Order) (eta : Option ℕ) (o : Order) → order_key (absorb a b eta o) ≡ order_key o
unfolding absorb
absorb-key a b eta o = refl

merge_Succeeds :
    (source target : ℕ) (eta : Option ℕ) (s : Db) (a b : Order)
    → source ≢ target
    → IsMergeable source target a b s
    → Succeeds (merge_open_orders source target eta s)
unfolding merge_open_orders get_order delete_order_row record_order_lineage_event
merge_Succeeds source target eta s a b ne h =
    let Q : Order → Db → Type 0 = λ _ _. Unit {0} in
    let f = absorb a b (or_date eta (or_date b.expected_arrival a.expected_arrival)) in
    let read : find order_key target (delete order_key source (update order_key target f s.orders))
        ≡ some (f b) =
      find-delete_ne order_key source target (update order_key target f s.orders) (λ e. ne (sym e))
      ∙ find-update_self order_key target f (absorb-key a b _) s.orders b h.1 in
    rw (unequal source target ne, h.0, h.1)
      (Returns-continue (λ _ s'. s' ≡ s) Q _ _ (local-Returns a s h.2)
        λ _ s' first. rw first (
          Returns-continue (λ _ s'. s' ≡ s) Q _ _ (local-Returns b s h.3)
            λ _ s' second. rw second (rw (h.4, h.5, h.6, read) tt)))

-- Where no key of the orders stands twice, the merge of two different open orders that are managed
-- here and agree in item, quotation, purchase order, item number and project succeeds: the source is
-- gone, the target has the amounts of both, stays open with its item, quotation, purchase order and
-- project, and takes the date that is given, or else keeps its own, or else takes the source's; every
-- other order and the open amount of every item are as they were.
pub merge_open_orders-Returns :
    (source target : ℕ) (expected_arrival : Option ℕ) (s : Db) (a b : Order)
    → IsKeyed order_key s.orders
    → source ≢ target
    → IsMergeable source target a b s
    → Returns
        (Merged source target expected_arrival s)
        (merge_open_orders source target expected_arrival s)
merge_open_orders-Returns source target eta s a b keyed ne h =
    both _ _ (merge_open_orders-Merged source target eta s keyed)
      (merge_Succeeds source target eta s a b ne h)
