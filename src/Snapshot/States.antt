-- ===== src/Snapshot/States.antt =====
-- What `_state_apply` of backend/app/service.py does to every entry of a state.
use materials_management_sha.Prelude.{
  ℕ, ◌+◌, ◌-◌, ◌<◌, ◌≡◌, refl, ℤ, pos_part, neg_part, true, some, List, [], ◌∷◌, arith, leb,
  if◌then◌else◌, Bool-cases, inl, inr,
}
use materials_management_sha.Text.{Text, text_eq_iff}
use materials_management_sha.Database.{StockRow}
use materials_management_sha.Stock.{is_at, find_quantity, quantity_at}
use materials_management_sha.Stock.Laws.{
  same, IsLedger, find_quantity-delete_row, delete_row-IsLedger,
}
use materials_management_sha.Snapshot.{put, state_apply}

find_quantity-put :
    (i j q : ℕ) (l m : Text) (state : List StockRow)
    → find_quantity j m (put i l q state)
      ≡ (if same i l j m then some q else find_quantity j m state)
unfolding find_quantity put same is_at
find_quantity-put i j q l m [] = ground (arith, text_eq_iff l m)
find_quantity-put i j q l m (r ∷ state) = ground (
  arith,
  text_eq_iff l m,
  text_eq_iff r.location l,
  text_eq_iff r.location m,
  find_quantity-put i j q l m state,
)

put-IsLedger :
    (i q : ℕ) (l : Text) (state : List StockRow)
    → 0 < q
    → IsLedger state
    → IsLedger (put i l q state)
unfolding put find_quantity same is_at
put-IsLedger i q l [] p h = (p, refl, tt)
put-IsLedger i q l (r ∷ state) p h = ground (
  arith,
  text_eq_iff l r.location,
  text_eq_iff r.location l,
  find_quantity-put i r.item_id q l r.location state,
  put-IsLedger i q l state p h.2,
)

same-quantity :
    (i j : ℕ) (l m : Text) (state : List StockRow)
    → same i l j m ≡ true
    → quantity_at j m state ≡ quantity_at i l state
unfolding same
same-quantity i j l m state h = ground (arith, text_eq_iff l m)

-- The state stays one entry a key, each positive.
pub state_apply-IsLedger :
    (i : ℕ) (l : Text) (d : ℤ) (state : List StockRow)
    → IsLedger state
    → IsLedger (state_apply i l d state)
unfolding state_apply
state_apply-IsLedger i l d state h =
    elim (Bool-cases (leb (quantity_at i l state + pos_part d) (neg_part d))) [
      | inl e ↦ rw e (delete_row-IsLedger i l state h)
      | inr e ↦ rw e (
          put-IsLedger i (quantity_at i l state + pos_part d - neg_part d) l state (ground arith) h)
    ]

-- The entry of the key changes by the delta, but never below 0, and no other does.
pub quantity_at-state_apply :
    (i j : ℕ) (l m : Text) (d : ℤ) (state : List StockRow)
    → IsLedger state
    → quantity_at j m (state_apply i l d state) ≡ (
        if same i l j m
        then quantity_at j m state + pos_part d - neg_part d
        else quantity_at j m state)
unfolding state_apply quantity_at
quantity_at-state_apply i j l m d state h = ground (
  arith,
  find_quantity-delete_row i j l m state h,
  find_quantity-put i j (quantity_at i l state + pos_part d - neg_part d) l m state,
  same-quantity i j l m state,
)
