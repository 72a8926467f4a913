-- ===== src/Snapshot/Answers.antt =====
-- What `get_inventory_snapshot` answers, by the day that it is asked for.
use materials_management_sha.Prelude.{
  ℕ, ◌<◌, ◌≡◌, Bool, true, false, Option, none, some, List, arith,
}
use materials_management_sha.Text.{codes, text_eq}
use materials_management_sha.Database.{Db, LogRow, ok}
use materials_management_sha.Drain.Laws.{All}
use materials_management_sha.Stock.Laws.{IsLedger}
use materials_management_sha.Snapshot.{past_state}
use materials_management_sha.Snapshot.Required.{Required}
use materials_management_sha.Snapshot.Query.{get_inventory_snapshot}
use materials_management_sha.Snapshot.Rewind.{Shows}
use materials_management_sha.Snapshot.Past.{Since, is_after, quantities, past_state-Since}

-- The basis that a request names.
abbrev pub basis_of : Bool → Option (List ℕ)
basis_of true = some (codes "net_available")
basis_of false = none

default_past :
    (day_of : ℕ → ℕ) (required : List Required) (target : ℕ) (t : Db)
    → target < t.today
    → get_inventory_snapshot day_of required target none none t ≡ ok (past_state day_of target t)
unfolding get_inventory_snapshot text_eq
default_past day_of required target t h = ground arith

-- From a well-formed ledger whose log has no row later than the day `target`, after inventory calls,
-- of which no undo is of the consumption of a reservation, that wrote one row each on later days, in
-- the order of the log, the snapshot of `target`, if that is a past day, is given and shows every
-- quantity as it was. The rows are plain: an ARRIVAL names STOCK and a RESERVE goes from STOCK to
-- RESERVED, a CONSUME names no destination, a MOVE or ADJUST two different locations or one, and all
-- locations are stripped and not empty.
pub get_inventory_snapshot-Since :
    (day_of : ℕ → ℕ) (required : List Required) (target : ℕ) (s t : Db) (rows : List LogRow)
    → IsLedger s.stock
    → All (λ r. is_after day_of target r ≡ false) s.log
    → Since day_of target s rows t
    → target < t.today
    → (get_inventory_snapshot day_of required target none none t ≡ ok (past_state day_of target t))
      × Shows (quantities s) (past_state day_of target t)
get_inventory_snapshot-Since day_of required target s t rows h old c p =
    (default_past day_of required target t p, past_state-Since day_of target s t rows h old c)
