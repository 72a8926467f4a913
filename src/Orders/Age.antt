-- ===== src/Orders/Age.antt =====
-- The ORDER BY of the rows that wait for an order, in `process_order_arrival`.
use materials_management_sha.Text.{Text}
use materials_management_sha.Prelude.{ℕ, ◌≡◌, refl, none, List, [], ◌∷◌, arith, keep}
use materials_management_sha.Database.{Db, Incoming}
use materials_management_sha.Database.Table.{find, IsKeyed}
use materials_management_sha.Database.Table.Laws.{Stands, IsKeyed-keep, Stands-keep}
use materials_management_sha.Drain.Laws.{All}
use materials_management_sha.Reservation.Holdings.{incoming_key, Tables}
use materials_management_sha.Orders.Arrival.{awaits, insert_by_age, by_age}
use materials_management_sha.Orders.Conversion.{IsLive, Open}

find-insert_none :
    (j : ℕ) (a : Incoming) (l : List Incoming)
    → find incoming_key j (a ∷ l) ≡ none
    → find incoming_key j (insert_by_age a l) ≡ none
unfolding find insert_by_age
find-insert_none j a [] h = h
find-insert_none j a (b ∷ l) h = ground (arith, find-insert_none j a l)

IsKeyed-insert :
    (a : Incoming) (l : List Incoming)
    → find incoming_key (incoming_key a) l ≡ none
    → IsKeyed incoming_key l
    → IsKeyed incoming_key (insert_by_age a l)
unfolding find insert_by_age
IsKeyed-insert a [] h k = (refl, tt)
IsKeyed-insert a (b ∷ l) h k =
    ground (arith, IsKeyed-insert a l, find-insert_none b.incoming_allocation_id a l)

Stands-insert :
    (rows : List Incoming) (a : Incoming) (l : List Incoming)
    → Stands incoming_key rows (a ∷ l)
    → Stands incoming_key rows (insert_by_age a l)
unfolding insert_by_age
Stands-insert rows a [] h = h
Stands-insert rows a (b ∷ l) h = ground (arith, Stands-insert rows a l)

All-insert :
    (a : Incoming) (l : List Incoming) → All IsLive (a ∷ l) → All IsLive (insert_by_age a l)
unfolding insert_by_age
All-insert a [] h = h
All-insert a (b ∷ l) h = ground (arith, All-insert a l)

find-by_age-none :
    (j : ℕ) (l : List Incoming)
    → find incoming_key j l ≡ none
    → find incoming_key j (by_age l) ≡ none
unfolding find by_age
find-by_age-none j [] h = refl
find-by_age-none j (a ∷ l) h =
    find-insert_none j a (by_age l) (ground (arith, find-by_age-none j l))

-- What the loop needs of its rows, sorted or not.
abbrev Rows : List Incoming → List Incoming → Type 0
Rows rows l = IsKeyed incoming_key l × Stands incoming_key rows l × All IsLive l

by_age-Rows : (rows l : List Incoming) → Rows rows l → Rows rows (by_age l)
unfolding by_age
by_age-Rows rows [] h = h
by_age-Rows rows (a ∷ l) h =
    let rest = by_age-Rows rows l (h.0.1, h.1.1, h.2.1) in
    (
      IsKeyed-insert a (by_age l) (find-by_age-none (incoming_key a) l h.0.0) rest.0,
      Stands-insert rows a (by_age l) (h.1.0, rest.1),
      All-insert a (by_age l) (h.2.0, rest.2),
    )

keep-Live : (id : ℕ) (rows : List Incoming) → All IsLive (keep (awaits id) rows)
unfolding keep awaits
keep-Live id [] = tt
keep-Live id (a ∷ rows) = ground (arith, keep-Live id rows)

pub waiting-Open :
    (place : Text) (ts log_id id : ℕ) (s : Db)
    → Tables s
    → Open place ts log_id (by_age (keep (awaits id) s.incoming)) s
waiting-Open place ts log_id id s h =
    let rows = by_age-Rows s.incoming (keep (awaits id) s.incoming) (
      IsKeyed-keep incoming_key (awaits id) s.incoming h.1.0,
      Stands-keep incoming_key (awaits id) s.incoming h.1.0,
      keep-Live id s.incoming,
    ) in
    (h.1, rows.0, rows.1, rows.2)
