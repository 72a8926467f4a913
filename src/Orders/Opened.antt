-- ===== src/Orders/Opened.antt =====
-- What an arrival of backend/app/service.py leaves of the order: what has arrived, and what is open.
use materials_management_sha.Prelude.{
  ℕ, ◌+◌, ◌-◌, ◌≤◌, ◌≡◌, refl, true, false, some, List, [], ◌∷◌, ◌++◌, arith, ◌==◌, if◌then◌else◌,
  sum_by-snoc, Bool-cases, inl, inr, sym,
}
use materials_management_sha.Database.{Db, Order}
use materials_management_sha.Database.Triples.{After, After-reader}
use materials_management_sha.Database.Table.{find, update, IsKeyed}
use materials_management_sha.Database.Table.Laws.{sum_by-update, find-update_self, find-snoc}
use materials_management_sha.Orders.{order_key, is_arrived, record_order_lineage_event}
use materials_management_sha.Orders.Merge.{open_amount, open_weight}
use materials_management_sha.Orders.Frames.{split_ordered-same}
use materials_management_sha.Orders.Arrival.{
  arrive_order, split_arrival, update_order_row, insert_remaining, remaining_order,
  record_local_order_split, arrive_whole, arrive_part,
}

-- Of the order `o`, `n` has arrived under its key, and that much less of its item is open.
abbrev pub ArrivedOf : ℕ → Order → ℕ → List Order → List Order → Type 0
ArrivedOf id o n orders orders' =
    ((o' : Order) × (find order_key id orders' ≡ some o')
      × (is_arrived o'.status ≡ true)
      × (o'.order_amount ≡ n)
      × (o'.item_id ≡ o.item_id))
    × ((j : ℕ) → open_amount j orders' + (if o.item_id == j then n else 0) ≡ open_amount j orders)

module _ (id : ℕ) (o : Order) (n : ℕ) (s : Db) (keyed : IsKeyed order_key s.orders)
    (found : find order_key id s.orders ≡ some o) (live : is_arrived o.status ≡ false) where
  whole-Arrived :
      n ≡ o.order_amount
      → ArrivedOf id o n s.orders (update order_key id (arrive_whole s.today) s.orders)
  unfolding open_amount open_weight arrive_whole is_arrived
  whole-Arrived whole = (
    (
      arrive_whole s.today o,
      find-update_self order_key id (arrive_whole s.today) (λ x. refl) s.orders o found,
      refl,
      sym whole,
      refl,
    ),
    λ j. ground (
      arith,
      sum_by-update order_key id (arrive_whole s.today) (λ x. refl) (open_weight j) s.orders o keyed
          found,
    ),
  )

  split-Arrived :
      (share : ℕ) (child : Order)
      → n ≤ o.order_amount
      → child.order_amount ≡ o.order_amount - n
      → child.item_id ≡ o.item_id
      → is_arrived child.status ≡ false
      → ArrivedOf id o n s.orders
          (update order_key id (arrive_part n share s.today) s.orders ++ child ∷ [])
  unfolding open_amount open_weight arrive_part is_arrived
  split-Arrived share child le amount item opens =
      let f = arrive_part n share s.today in
      let rows = update order_key id f s.orders in
      (
        (
          f o,
          find-snoc order_key id rows child (f o)
              (find-update_self order_key id f (λ x. refl) s.orders o found),
          refl,
          refl,
          refl,
        ),
        λ j. ground (
          arith,
          sum_by-snoc (open_weight j) rows child,
          sum_by-update order_key id f (λ x. refl) (open_weight j) s.orders o keyed found,
        ),
      )

  split_arrival-Arrived :
      n ≤ o.order_amount
      → After (λ _ t. ArrivedOf id o n s.orders t.orders) (split_arrival id o n s)
  unfolding split_arrival update_order_row insert_remaining remaining_order
      record_order_lineage_event record_local_order_split is_arrived
  split_arrival-Arrived le =
      After-reader (λ _. Unit {0}) (λ _ t. ArrivedOf id o n s.orders t.orders) _ _ s
        (split_ordered-same _ n o.order_amount s)
        λ shares _.
          split-Arrived shares.0 (remaining_order o s.next_order (o.order_amount - n) shares.1) le
            refl refl refl

  pub arrive_order-Arrived :
      n ≤ o.order_amount → After (λ _ t. ArrivedOf id o n s.orders t.orders) (arrive_order id o n s)
  unfolding arrive_order update_order_row
  arrive_order-Arrived le = elim (Bool-cases (n == o.order_amount)) [
    | inl e ↦ rw e (whole-Arrived (ground arith))
    | inr e ↦ rw e (split_arrival-Arrived le)
  ]
