-- ===== src/Orders/Parts.antt =====
-- What the writes of `update_order` of backend/app/service.py make of the orders.
use mathlib.Core.Path.{subst}
use materials_management_sha.Prelude.{
  ℕ, ◌+◌, ◌-◌, ◌<◌, ◌≡◌, ◌≢◌, refl, ◌∙◌, sym, false, Option, none, some, List, [], ◌∷◌, ◌++◌, arith,
  sum_by-snoc, Bool-cases, inl, inr,
}
use materials_management_sha.Database.{Db, Order, Lineage, Split}
use materials_management_sha.Database.Triples.{After, After-raise_if}
use materials_management_sha.Database.Table.{find, update, IsKeyed, Below}
use materials_management_sha.Database.Table.Laws.{
  find-update_ne, sum_by-update, find-update_self, Below-update, find-snoc, find-snoc_new,
  find-snoc_ne, find-above, IsKeyed-update, IsKeyed-snoc, Below-snoc, Below-mono,
}
use materials_management_sha.Orders.{
  order_key, get_order, is_arrived, original_quantity, record_order_lineage_event, same_id,
}
use materials_management_sha.Orders.Arrival.{update_order_row}
use materials_management_sha.Orders.Shares.{Shares}
use materials_management_sha.Orders.Merge.{open_weight, open_amount}
use materials_management_sha.Orders.Update.{
  OrderUpdate, Updated, whole, split_off, with_project, update_whole, record_eta_update, is_blank,
}

-- Every other order, the open amount of every item, the incoming allocations and the stock are as
-- they were; the keys of the orders stand once and lie below the next one.
abbrev pub Keeps : ℕ → Db → Db → Type 0
Keeps id s t =
    ((k : ℕ) → k ≢ id → k ≢ s.next_order → find order_key k t.orders ≡ find order_key k s.orders)
    × ((j : ℕ) → open_amount j t.orders ≡ open_amount j s.orders)
    × (t.incoming ≡ s.incoming)
    × (t.stock ≡ s.stock)
    × IsKeyed order_key t.orders
    × Below order_key t.next_order t.orders

-- What an update has made of the open order `o`: an order with the same amounts; or two orders whose
-- amounts are positive and add up to its own, with its ordered quantity divided in the same
-- proportion.
abbrev pub IsUpdate : Order → Updated → Type 0
IsUpdate o (whole r) = (r.order_amount ≡ o.order_amount) × (r.ordered_quantity ≡ o.ordered_quantity)
IsUpdate o (split_off r c) =
    (share rest : ℕ) × (r.order_amount + c.order_amount ≡ o.order_amount)
    × (0 < r.order_amount)
    × (0 < c.order_amount)
    × (c.ordered_quantity ≡ some share)
    × (r.ordered_quantity ≡ some rest)
    × Shares (original_quantity o) c.order_amount o.order_amount (share, rest)

-- Where the orders of an update stand.
abbrev pub Stored : ℕ → Updated → Db → Db → Type 0
Stored id (whole r) s t = find order_key id t.orders ≡ some r
Stored id (split_off r c) s t =
    (find order_key id t.orders ≡ some r) × (find order_key s.next_order t.orders ≡ some c)

abbrev pub UpdatedFrom : ℕ → Db → Updated → Db → Type 0
UpdatedFrom id s r t =
    (o : Order) × (find order_key id s.orders ≡ some o)
    × (is_arrived o.status ≡ false)
    × IsUpdate o r
    × Stored id r s t
    × Keeps id s t

pub with_project-keeps :
    (p : Option (Option ℕ)) (o : Order)
    → ((with_project p o).order_id ≡ o.order_id)
      × ((with_project p o).order_amount ≡ o.order_amount)
      × ((with_project p o).ordered_quantity ≡ o.ordered_quantity)
      × ((with_project p o).item_id ≡ o.item_id)
      × ((with_project p o).status ≡ o.status)
unfolding with_project
with_project-keeps none o = (refl, refl, refl, refl, refl)
with_project-keeps (some p) o = (refl, refl, refl, refl, refl)

open_amount-update :
    (id j : ℕ) (f : Order → Order) (orders : List Order) (o : Order)
    → ((x : Order) → (f x).order_id ≡ x.order_id)
    → IsKeyed order_key orders
    → find order_key id orders ≡ some o
    → open_amount j (update order_key id f orders) + open_weight j o
      ≡ open_amount j orders + open_weight j (f o)
unfolding open_amount
open_amount-update id j f orders o same keyed found =
    sum_by-update order_key id f same (open_weight j) orders o keyed found

module _ (id : ℕ) (s : Db) (o : Order) (keyed : IsKeyed order_key s.orders)
    (below : Below order_key s.next_order s.orders) (found : find order_key id s.orders ≡ some o)
    (live : is_arrived o.status ≡ false) where
  -- The row that an update without a split writes.
  abbrev dated : Option (Option ℕ) → Option ℕ → Order → Order
  dated project eta x = with_project project (record x { expected_arrival = eta })

  dated-Keeps :
      (project : Option (Option ℕ)) (eta : Option ℕ) (lineage : List Lineage) (splits : List Split)
      → UpdatedFrom id s (whole (dated project eta o)) (record s {
        orders = update order_key id (dated project eta) s.orders;
        lineage = lineage;
        splits = splits;
      })
  unfolding with_project open_weight
  dated-Keeps project eta lineage splits =
      let f = dated project eta in
      let kept : (x : Order) → (f x).order_id ≡ x.order_id =
        λ x. (with_project-keeps project (record x { expected_arrival = eta })).0 in
      let same = with_project-keeps project (record o { expected_arrival = eta }) in
      (
        o,
        found,
        live,
        (same.1, same.2),
        find-update_self order_key id f kept s.orders o found,
        (
          λ k ne _. find-update_ne order_key id f kept k s.orders ne,
          λ j. ground (arith, same, open_amount-update id j f s.orders o kept keyed found),
          refl,
          refl,
          IsKeyed-update order_key id f kept s.orders keyed,
          Below-update order_key id f kept s.next_order s.orders below,
        ),
      )

  pub update_whole-Updated :
      (eta : Option ℕ) (payload : OrderUpdate)
      → After (λ r t. UpdatedFrom id s (whole r) t) (update_whole id o eta payload s)
  unfolding update_whole update_order_row get_order record_eta_update record_order_lineage_event
  update_whole-Updated eta payload =
      let f = dated payload.project_id eta in
      let read : find order_key id (update order_key id f s.orders) ≡ some (f o) =
        find-update_self order_key id f
          (λ x. (with_project-keeps payload.project_id (record x { expected_arrival = eta })).0)
          s.orders o found in
      After-raise_if (λ r t. UpdatedFrom id s (whole r) t) (is_blank payload.status) _ _ s
        λ _. rw read (elim (Bool-cases (same_id o.expected_arrival (f o).expected_arrival)) [
          | inl e ↦ rw e (dated-Keeps payload.project_id eta s.lineage s.splits)
          | inr e ↦ rw e (dated-Keeps payload.project_id eta s.lineage s.splits)
        ])

  -- The rows that a split of `n` writes.
  abbrev pub reduced : Option (Option ℕ) → ℕ → ℕ → Order → Order
  reduced project n rest x =
      with_project project
        (record x { order_amount = o.order_amount - n; ordered_quantity = some rest })

  module _ (project : Option (Option ℕ)) (n share rest : ℕ) (child : Order)
      (key : child.order_id ≡ s.next_order) (same_item : child.item_id ≡ o.item_id)
      (amount : child.order_amount ≡ n) (quantity : child.ordered_quantity ≡ some share)
      (open_child : is_arrived child.status ≡ false) (positive : 0 < n) (part : n < o.order_amount)
      (shares : Shares (original_quantity o) n o.order_amount (share, rest)) where
    abbrev pub rows : List Order
    rows = update order_key id (reduced project n rest) s.orders

    reduced_id : (x : Order) → (reduced project n rest x).order_id ≡ x.order_id
    reduced_id x =
        (with_project-keeps project
          (record x { order_amount = o.order_amount - n; ordered_quantity = some rest })).0

    rows-Below : Below order_key s.next_order rows
    rows-Below =
        Below-update order_key id (reduced project n rest) reduced_id s.next_order s.orders below

    pub read_updated : find order_key id (rows ++ child ∷ []) ≡ some (reduced project n rest o)
    read_updated =
        find-snoc order_key id rows child (reduced project n rest o)
          (find-update_self order_key id (reduced project n rest) reduced_id s.orders o found)

    absent : find order_key child.order_id rows ≡ none
    absent =
        subst (λ k. find order_key k rows ≡ none) (sym key)
          (find-above order_key s.next_order s.next_order rows rows-Below (omega arith))

    pub read_created : find order_key s.next_order (rows ++ child ∷ []) ≡ some child
    read_created =
        subst (λ k. find order_key k (rows ++ child ∷ []) ≡ some child) key
          (find-snoc_new order_key rows child absent)

    split-IsKeyed : IsKeyed order_key (rows ++ child ∷ [])
    split-IsKeyed =
        IsKeyed-snoc order_key rows child
          (IsKeyed-update order_key id (reduced project n rest) reduced_id s.orders keyed) absent

    split-Below : Below order_key (s.next_order + 1) (rows ++ child ∷ [])
    split-Below =
        Below-snoc order_key (s.next_order + 1) rows child
          (Below-mono order_key s.next_order (s.next_order + 1) rows (omega arith) rows-Below)
          (omega (arith, key))

    split-open : (j : ℕ) → open_amount j (rows ++ child ∷ []) ≡ open_amount j s.orders
    unfolding open_weight open_amount
    split-open j = ground (
      arith,
      sum_by-snoc (open_weight j) rows child,
      with_project-keeps project
          (record o { order_amount = o.order_amount - n; ordered_quantity = some rest }),
      open_amount-update id j (reduced project n rest) s.orders o reduced_id keyed found,
    )

    split-Keeps :
        (t : Db)
        → t.orders ≡ rows ++ child ∷ []
        → t.incoming ≡ s.incoming
        → t.stock ≡ s.stock
        → t.next_order ≡ s.next_order + 1
        → Keeps id s t
    split-Keeps t orders incoming stock next =
        rw (orders, next)
          (
            λ k ne nk.
                find-snoc_ne order_key k rows child (λ e. nk (e ∙ key))
                ∙ find-update_ne order_key id (reduced project n rest) reduced_id k s.orders ne,
            λ j. split-open j,
            incoming,
            stock,
            split-IsKeyed,
            split-Below,
          )

    split-IsUpdate : IsUpdate o (split_off (reduced project n rest o) child)
    split-IsUpdate =
        let same =
          with_project-keeps project
            (record o { order_amount = o.order_amount - n; ordered_quantity = some rest }) in
        (
          share,
          rest,
          omega (arith, same.1, amount),
          omega (arith, same.1),
          omega (arith, amount),
          quantity,
          same.2,
          subst (λ k. Shares (original_quantity o) k o.order_amount (share, rest)) (sym amount)
              shares,
        )

    pub split-Updated :
        (t : Db)
        → t.orders ≡ rows ++ child ∷ []
        → t.incoming ≡ s.incoming
        → t.stock ≡ s.stock
        → t.next_order ≡ s.next_order + 1
        → UpdatedFrom id s (split_off (reduced project n rest o) child) t
    split-Updated t orders incoming stock next = (
      o,
      found,
      live,
      split-IsUpdate,
      (
        subst (λ x. find order_key id x ≡ some (reduced project n rest o)) (sym orders)
            read_updated,
        subst (λ x. find order_key s.next_order x ≡ some child) (sym orders) read_created,
      ),
      split-Keeps t orders incoming stock next,
    )
