-- ===== src/Orders/Updated.antt =====
-- `update_order` of backend/app/service.py as a whole, where it returns.
use materials_management_sha.Prelude.{
  ℕ, ◌<◌, ◌≡◌, refl, ℤ, pos, false, Option, none, some, [], ◌∷◌, ◌++◌, arith, leb, ◌+◌,
}
use materials_management_sha.Database.{Db, Order}
use materials_management_sha.Database.Triples.{
  After, After-reader, After-raise_if, After-map, After-continue,
}
use materials_management_sha.Database.Table.{find, IsKeyed, Below}
use materials_management_sha.Movement.Journal.{require_positive-After}
use materials_management_sha.Orders.{
  order_key, get_order, is_arrived, original_quantity, record_order_lineage_event,
}
use materials_management_sha.Orders.Arrival.{
  insert_remaining, remaining_order, update_order_row, record_local_order_split,
}
use materials_management_sha.Orders.Shares.{Shares, split_ordered-Shares}
use materials_management_sha.Orders.Merge.{get_order-After, local-After}
use materials_management_sha.Orders.Checks.{check_project-After, owner_of-After, split_date-After}
use materials_management_sha.Orders.Parts.{
  UpdatedFrom, update_whole-Updated, split-Updated, read_created, read_updated, rows,
  with_project-keeps,
}
use materials_management_sha.Orders.Update.{
  OrderUpdate, whole, child_of, split_order, whole_or_split, update_order, write_split,
  is_unsupported, is_blank, or_current,
}

child_item :
    (o : Order) (eta : Option ℕ) (project : Option (Option ℕ)) (owner : Option ℕ)
    → (child_of o eta project owner).item_id ≡ o.item_id
unfolding child_of
child_item o eta project none = (with_project-keeps project (record o { expected_arrival = eta })).3
child_item o eta project (some p) = refl

-- The statements behind the guards of a split.
split_written :
    (id : ℕ) (s : Db) (o : Order) (eta : Option ℕ) (payload : OrderUpdate) (owner : Option ℕ)
    (n share rest : ℕ)
    → IsKeyed order_key s.orders
    → Below order_key s.next_order s.orders
    → find order_key id s.orders ≡ some o
    → is_arrived o.status ≡ false
    → 0 < n
    → n < o.order_amount
    → Shares (original_quantity o) n o.order_amount (share, rest)
    → After (UpdatedFrom id s) (write_split id o eta payload owner n share rest s)
unfolding write_split update_order_row insert_remaining remaining_order get_order
    record_order_lineage_event record_local_order_split is_arrived
split_written id s o eta payload owner n share rest keyed below found live positive part shares =
    let p = payload.project_id in
    let child = remaining_order (child_of o eta p owner) s.next_order n share in
    let same = child_item o eta p owner in
    After-raise_if (UpdatedFrom id s) (is_blank payload.status) _ _ s λ _.
      rw
        (
          read_created id s o keyed below found live p n share rest child refl same refl refl refl
              positive part shares,
          read_updated id s o keyed below found live p n share rest child refl same refl refl refl
              positive part shares,
        )
        (split-Updated id s o keyed below found live p n share rest child refl same refl refl refl
          positive part shares
          (record s {
            orders =
                rows id s o keyed below found live p n share rest child refl same refl refl refl
                  positive part shares
                ++ child ∷ [];
            next_order = s.next_order + 1;
          })
          refl refl refl refl)

split_order-Updated :
    (id : ℕ) (s : Db) (o : Order) (eta : Option ℕ) (payload : OrderUpdate) (rfq : Option ℕ) (q : ℤ)
    → IsKeyed order_key s.orders
    → Below order_key s.next_order s.orders
    → find order_key id s.orders ≡ some o
    → is_arrived o.status ≡ false
    → After (UpdatedFrom id s) (split_order id o eta payload rfq q s)
unfolding split_order
split_order-Updated id s o eta payload rfq q keyed below found live =
    let Q = UpdatedFrom id s in
    After-reader (λ n. (q ≡ pos n) × (0 < n)) Q _ _ s (require_positive-After q s)
      λ n positive. After-raise_if Q (leb o.order_amount n) _ _ s λ fits.
        After-reader (λ _. Unit) Q _ _ s (split_date-After eta id s)
          λ date _.
            After-reader (Shares (original_quantity o) n o.order_amount) Q _ _ s
              (After-map (λ r s'. Shares (original_quantity o) n o.order_amount r × (s' ≡ s))
                (λ r s'. (s' ≡ s) × Shares (original_quantity o) n o.order_amount r) _
                (split_ordered-Shares (original_quantity o) n o.order_amount s (ground arith))
                λ r t h. (h.1, h.0))
              λ r shares.
                After-reader (λ _. Unit) Q _ _ s (owner_of-After id rfq s)
                  λ owner _.
                    split_written id s o eta payload owner n r.0 r.1 keyed below found live
                      positive.1 (ground arith) shares

whole_or_split-Updated :
    (id : ℕ) (s : Db) (o : Order) (eta : Option ℕ) (payload : OrderUpdate) (rfq : Option ℕ)
    (quantity : Option ℤ)
    → IsKeyed order_key s.orders
    → Below order_key s.next_order s.orders
    → find order_key id s.orders ≡ some o
    → is_arrived o.status ≡ false
    → After (UpdatedFrom id s) (whole_or_split id o eta payload rfq quantity s)
unfolding whole_or_split
whole_or_split-Updated id s o eta payload rfq none keyed below found live =
    After-continue (λ r t. UpdatedFrom id s (whole r) t) (UpdatedFrom id s) _ _
      (update_whole-Updated id s o keyed below found live eta payload) λ r t h. h
whole_or_split-Updated id s o eta payload rfq (some q) keyed below found live =
    split_order-Updated id s o eta payload rfq q keyed below found live

-- Where no key of the orders stands twice and all lie below the next one, an update that returns was
-- of an open order. It leaves one order with the same amounts, or a split leaves two with positive
-- amounts that add up to those of the order, and with its ordered quantity divided exactly in the
-- proportion of the amounts. Every other order, the open amount of every item, the incoming
-- allocations and the stock are as they were, and the keys of the orders still stand once and lie
-- below the next one.
pub update_order-Updated :
    (id : ℕ) (payload : OrderUpdate) (s : Db)
    → IsKeyed order_key s.orders
    → Below order_key s.next_order s.orders
    → After (UpdatedFrom id s) (update_order id payload s)
unfolding update_order
update_order-Updated id payload s keyed below =
    let Q = UpdatedFrom id s in
    After-reader (λ o. find order_key id s.orders ≡ some o) Q _ _ s (get_order-After id s)
      λ o found.
        After-reader (λ _. Unit) Q _ _ s (local-After o s)
          λ _ _. After-raise_if Q (is_arrived o.status) _ _ s λ live.
            After-raise_if Q (is_unsupported payload.status) _ _ s λ _.
              After-reader (λ _. Unit) Q _ _ s (check_project-After id payload.project_id s)
                λ rfq _.
                  whole_or_split-Updated id s o
                    (or_current payload.expected_arrival o.expected_arrival) payload rfq
                    payload.split_quantity keyed below found live
