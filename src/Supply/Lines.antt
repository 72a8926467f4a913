-- ===== src/Supply/Lines.antt =====
-- What `_select_incoming_order_candidates` of backend/app/service.py takes of each open order.
use materials_management_sha.Orders.Merge.{get_order-After}
use materials_management_sha.Database.Triples.{After, After-reader, After-raise_if}
use materials_management_sha.Prelude.{
  ℕ, ◌+◌, ◌-◌, ◌≤◌, ◌≡◌, refl, Bool, true, Option, none, some, List, [], ◌∷◌, ◌==◌, if◌then◌else◌,
  sum_by, keep, arith, Bool-cases, inl, inr, min, any_of, ==_iff, ap, sym, ◌∙◌, not, false, ◌&&◌,
}
use materials_management_sha.Database.{Db, Order}
use materials_management_sha.Database.Table.{find, IsKeyed}
use materials_management_sha.Orders.{order_key, is_arrived, same_id}
use materials_management_sha.Supply.{
  Candidate, Selected, order_available, may_supply, supplies_before, insert_order, sort_orders,
  list_candidates, open_supply, take_candidates, fill_from_orders, select_preferred,
}

-- The quantity of a selection, if it is of an order.
unfoldable pub drawn : ℕ → Selected → ℕ
drawn k x = if x.order_id == k then x.quantity else 0

unfoldable on_offer : ℕ → Candidate → ℕ
on_offer k c = if c.order_id == k then c.available_quantity else 0

take_candidates-drawn :
    (k : ℕ) (deadline : Option ℕ) (l : List Candidate) (n : ℕ)
    → sum_by (drawn k) (take_candidates deadline l n).0 ≤ sum_by (on_offer k) l
unfolding take_candidates sum_by drawn on_offer
take_candidates-drawn k deadline [] n = omega arith
take_candidates-drawn k deadline (c ∷ l) n =
    ground (arith, take_candidates-drawn k deadline l (n - min c.available_quantity n))

insert_order-sum :
    (w : Order → ℕ) (a : Order) (rows : List Order)
    → sum_by w (insert_order a rows) ≡ w a + sum_by w rows
unfolding insert_order sum_by
insert_order-sum w a [] = refl
insert_order-sum w a (b ∷ rows) = elim (Bool-cases (supplies_before a b)) [
  | inl e ↦ rw e refl
  | inr e ↦ rw e (omega (arith, insert_order-sum w a rows))
]

sort_orders-sum : (w : Order → ℕ) (rows : List Order) → sum_by w (sort_orders rows) ≡ sum_by w rows
unfolding sort_orders sum_by
sort_orders-sum w [] = refl
sort_orders-sum w (a ∷ rows) =
    omega (arith, insert_order-sum w a (sort_orders rows), sort_orders-sum w rows)

found_once : {a b : Order} → some a ≡ some b → a ≡ b
found_once h = cc

module _ (k : ℕ) (s : Db) where
  -- What is available of a row, if it is the order.
  unfoldable line : Order → ℕ
  line o = if o.order_id == k then order_available o s else 0

  list_candidates-on_offer :
      (excluded : List ℕ) (rows : List Order)
      → sum_by (on_offer k) (list_candidates excluded s rows) ≤ sum_by line rows
  unfolding list_candidates sum_by on_offer line
  list_candidates-on_offer excluded [] = omega arith
  list_candidates-on_offer excluded (o ∷ rows) =
      ground (arith, list_candidates-on_offer excluded rows)

  list_candidates-excluded :
      (excluded : List ℕ) (rows : List Order)
      → any_of (λ i. i == k) excluded ≡ true
      → sum_by (on_offer k) (list_candidates excluded s rows) ≡ 0
  unfolding list_candidates sum_by on_offer
  list_candidates-excluded excluded [] h = refl
  list_candidates-excluded excluded (o ∷ rows) h =
      ground (arith, list_candidates-excluded excluded rows h)

  no_line : (rows : List Order) → find order_key k rows ≡ none → sum_by line rows ≡ 0
  unfolding find sum_by line
  no_line [] h = refl
  no_line (o ∷ rows) h = ground (arith, no_line rows)

  one_line :
      (rows : List Order) (o : Order)
      → IsKeyed order_key rows
      → find order_key k rows ≡ some o
      → sum_by line rows ≡ order_available o s
  unfolding find sum_by line
  one_line [] o h e = cc
  one_line (p ∷ rows) o h e = ground (arith, no_line rows, one_line rows o h.1, h.0)

  keep-line : (p : Order → Bool) (rows : List Order) → sum_by line (keep p rows) ≤ sum_by line rows
  unfolding keep sum_by
  keep-line p [] = omega arith
  keep-line p (o ∷ rows) = ground (arith, keep-line p rows)

  open_supply-on_offer :
      (i : ℕ) (project : Option ℕ) (excluded : List ℕ) (o : Order)
      → IsKeyed order_key s.orders
      → find order_key k s.orders ≡ some o
      → sum_by (on_offer k) (open_supply i project excluded s) ≤ order_available o s
  unfolding open_supply
  open_supply-on_offer i project excluded o h e =
      let rows = keep (may_supply i project) s.orders in
      omega (
        arith,
        list_candidates-on_offer excluded (sort_orders rows),
        sort_orders-sum line rows,
        keep-line (may_supply i project) s.orders,
        one_line s.orders o h e,
      )

  -- A filling draws on no order beyond what is available of it, and on no order that is excluded.
  pub fill-drawn :
      (i n : ℕ) (project deadline : Option ℕ) (excluded : List ℕ) (o : Order)
      → IsKeyed order_key s.orders
      → find order_key k s.orders ≡ some o
      → After
          (λ l s'.
            (s' ≡ s)
            × (sum_by (drawn k) l ≤ order_available o s)
            × (any_of (λ j. j == k) excluded ≡ true → sum_by (drawn k) l ≡ 0))
          (fill_from_orders i n project deadline excluded s)
  unfolding fill_from_orders open_supply
  fill-drawn i n project deadline excluded o h e =
      let l = open_supply i project excluded s in
      After-raise_if _ (not ((take_candidates deadline l n).1 == 0)) _ _ s λ found. (
        refl,
        omega (
          arith,
          take_candidates-drawn k deadline l n,
          open_supply-on_offer i project excluded o h e,
        ),
        λ out. omega (
          arith,
          take_candidates-drawn k deadline l n,
          list_candidates-excluded excluded (sort_orders (keep (may_supply i project) s.orders))
              out,
        ),
      )

  preferred_le :
      (p n : ℕ) (o q : Order)
      → find order_key k s.orders ≡ some o
      → find order_key p s.orders ≡ some q
      → (if p == k then min (order_available q s) n else 0) ≤ order_available o s
  preferred_le p n o q e at_p = elim (Bool-cases (p == k)) [
    | inl same ↦
        let q_is : q ≡ o =
          found_once (sym at_p ∙ (ap (λ j. find order_key j s.orders) ((==_iff p k).0 same) ∙ e)) in
        rw (same, q_is) (omega arith)
    | inr other ↦ rw other (omega arith)
  ]

  -- A preferred order is drawn on for no more than is available of it, and no other order is.
  pub select_preferred-drawn :
      (i n : ℕ) (project : Option ℕ) (p : ℕ) (deadline : Option ℕ) (o : Order)
      → find order_key k s.orders ≡ some o
      → After
          (λ x s'.
            (s' ≡ s) × ((drawn k x ≤ order_available o s) × ((p == k) ≡ false → drawn k x ≡ 0)))
          (select_preferred i n project p deadline s)
  unfolding select_preferred drawn
  select_preferred-drawn i n project p deadline o e =
      let Q : Selected → Db → Type 0 = λ x s'.
        (s' ≡ s) × ((drawn k x ≤ order_available o s) × ((p == k) ≡ false → drawn k x ≡ 0)) in
      After-reader (λ q. find order_key p s.orders ≡ some q) Q _ _ s (get_order-After p s)
        λ q at_p. After-raise_if Q (not (q.item_id == i)) _ _ s λ _.
          After-raise_if Q (is_arrived q.status) _ _ s λ _.
            After-raise_if Q (not (same_id q.project_id none) && not (same_id q.project_id project))
              _ _ s
              λ _.
                After-raise_if Q (order_available q s == 0) _ _ s
                  λ _. (refl, (preferred_le p n o q e at_p, λ other. ground (arith, other)))
