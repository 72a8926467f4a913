-- ===== src/Snapshot/Started.antt =====
-- What the projects that have started take of a snapshot's state, at STOCK.
use materials_management_sha.Prelude.{
  ℕ, ◌-◌, ◌≡◌, refl, ◌∙◌, neg_ℕ, min, true, false, List, [], ◌∷◌, arith, ◌==◌, if◌then◌else◌,
  Bool-cases, inl, inr, sum_by,
}
use materials_management_sha.Text.{Text, codes, text_eq}
use materials_management_sha.Database.{Db, StockRow}
use materials_management_sha.Drain.Laws.{All}
use materials_management_sha.Stock.{quantity_at}
use materials_management_sha.Stock.Laws.{same, IsLedger}
use materials_management_sha.Snapshot.{state_apply}
use materials_management_sha.Snapshot.Required.{
  Required, remaining, insert_name, sort_names, names_of, locations_of, take_locations,
  take_required,
}
use materials_management_sha.Snapshot.States.{state_apply-IsLedger, quantity_at-state_apply}

-- What a started project still requires of an item.
unfoldable pub wants : ℕ → Db → ℕ → Required → ℕ
wants target s j r = if r.item_id == j then remaining target s r else 0

abbrev IsOther : Text → Type 0
IsOther l = text_eq l (codes "STOCK") ≡ false

insert-IsOther :
    (a : Text) (names : List Text)
    → IsOther a
    → All IsOther names
    → All IsOther (insert_name a names)
unfolding insert_name
insert-IsOther a [] h k = (h, tt)
insert-IsOther a (b ∷ names) h k = ground (arith, insert-IsOther a names h k.1)

sort-IsOther : (names : List Text) → All IsOther names → All IsOther (sort_names names)
unfolding sort_names
sort-IsOther [] h = tt
sort-IsOther (a ∷ names) h = insert-IsOther a (sort_names names) h.0 (sort-IsOther names h.1)

names-IsOther : (item : ℕ) (state : List StockRow) → All IsOther (names_of item state)
unfolding names_of
names-IsOther item [] = tt
names-IsOther item (r ∷ state) = ground (arith, names-IsOther item state)

taken : ℕ → Text → ℕ → List StockRow → List StockRow
taken item l n state = if n == 0 then state else state_apply item l (neg_ℕ n) state

taken-IsLedger :
    (item : ℕ) (l : Text) (n : ℕ) (state : List StockRow)
    → IsLedger state
    → IsLedger (taken item l n state)
unfolding taken
taken-IsLedger item l n state h = elim (Bool-cases (n == 0)) [
  | inl e ↦ rw e h
  | inr e ↦ rw e (state_apply-IsLedger item l (neg_ℕ n) state h)
]

taken-quantity :
    (item j : ℕ) (l m : Text) (n : ℕ) (state : List StockRow)
    → IsLedger state
    → quantity_at j m (taken item l n state)
      ≡ quantity_at j m state - (if same item l j m then n else 0)
unfolding taken
taken-quantity item j l m n state h = elim (Bool-cases (n == 0)) [
  | inl e ↦ rw e (ground arith)
  | inr e ↦ rw e (ground (arith, quantity_at-state_apply item j l m (neg_ℕ n) state h))
]

other-same : (i j : ℕ) (l : Text) → IsOther l → same i l j (codes "STOCK") ≡ false
unfolding same
other-same i j l h = ground arith

-- Locations outside STOCK leave it as it is.
others-stock :
    (item j : ℕ) (locations : List Text) (need : ℕ) (state : List StockRow)
    → All IsOther locations
    → IsLedger state
    → IsLedger (take_locations item locations need state)
      × (quantity_at j (codes "STOCK") (take_locations item locations need state)
          ≡ quantity_at j (codes "STOCK") state)
unfolding take_locations taken
others-stock item j [] need state o h = (h, refl)
others-stock item j (l ∷ locations) need state o h =
    let used = min (quantity_at item l state) need in
    let rest =
      others-stock item j locations (need - used) (taken item l used state) o.1
        (taken-IsLedger item l used state h) in
    elim (Bool-cases (need == 0)) [
      | inl e ↦ rw e (h, refl)
      | inr e ↦ rw e (
        rest.0,
        rest.1
            ∙ ground (
              arith,
              taken-quantity item j l (codes "STOCK") used state h,
              other-same item j l o.0,
            ),
      )
    ]

stock-same : (i j : ℕ) → same i (codes "STOCK") j (codes "STOCK") ≡ (i == j)
unfolding same text_eq
stock-same i j = ground arith

same_stock :
    (i j : ℕ) (state : List StockRow)
    → (i == j) ≡ true
    → quantity_at i (codes "STOCK") state ≡ quantity_at j (codes "STOCK") state
same_stock i j state h = ground arith

-- The entries of an item give at STOCK first.
item-stock :
    (item j need : ℕ) (state : List StockRow)
    → IsLedger state
    → IsLedger (take_locations item (locations_of item state) need state)
      × (quantity_at j (codes "STOCK") (take_locations item (locations_of item state) need state)
          ≡ quantity_at j (codes "STOCK") state - (if item == j then need else 0))
unfolding locations_of take_locations taken
item-stock item j need state h =
    let others = sort_names (names_of item state) in
    let outside = sort-IsOther (names_of item state) (names-IsOther item state) in
    let q = quantity_at item (codes "STOCK") state in
    elim (Bool-cases (q == 0)) [
      | inl e ↦
          let rest = others-stock item j others need state outside h in
          rw e (rest.0, rest.1 ∙ ground (arith, e, same_stock item j state))
      | inr e ↦ elim (Bool-cases (need == 0)) [
        | inl f ↦ rw (e, f) (h, ground arith)
        | inr f ↦
            let used = min q need in
            let rest =
              others-stock item j others (need - used) (taken item (codes "STOCK") used state)
                outside (taken-IsLedger item (codes "STOCK") used state h) in
            rw (e, f)
              (
                rest.0,
                rest.1
                    ∙ ground (
                      arith,
                      taken-quantity item j (codes "STOCK") (codes "STOCK") used state h,
                      stock-same item j,
                      same_stock item j state,
                    ),
              )
      ]
    ]

pub take_required-stock :
    (target : ℕ) (s : Db) (j : ℕ) (required : List Required) (state : List StockRow)
    → IsLedger state
    → quantity_at j (codes "STOCK") (take_required target s required state)
      ≡ quantity_at j (codes "STOCK") state - sum_by (wants target s j) required
unfolding take_required sum_by wants
take_required-stock target s j [] state h = omega arith
take_required-stock target s j (r ∷ required) state h =
    let one = item-stock r.item_id j (remaining target s r) state h in
    ground (
      arith,
      take_required-stock target s j required
          (take_locations r.item_id (locations_of r.item_id state) (remaining target s r) state)
          one.0,
      one.1,
    )
