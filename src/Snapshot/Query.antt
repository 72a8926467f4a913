-- ===== src/Snapshot/Query.antt =====
-- `get_inventory_snapshot` of backend/app/service.py as a whole.
use materials_management_sha.Prelude.{
  ℕ, Bool, ◌&&◌, ◌||◌, not, Option, none, some, List, ltb, if◌then◌else◌,
}
use materials_management_sha.Text.{Text, codes, text_eq, is_empty}
use materials_management_sha.Database.{
  Db, StockRow, Result, ok, err, invalid_snapshot_mode, invalid_snapshot_basis,
  snapshot_basis_mode_unsupported,
}
use materials_management_sha.Snapshot.{past_state, net_state, add_pending, take_due}
use materials_management_sha.Snapshot.Required.{Required, take_required}

unfoldable pub future_state : Bool → ℕ → List Required → Db → List StockRow
future_state net target required s =
    if net
    then take_required target s required (add_pending target s s.orders (net_state s s.stock))
    else take_due target s s.items (add_pending target s s.orders s.stock)

-- `get_inventory_snapshot`, up to the rows that describe the entries: mode and basis are tested in
-- this order. `none` stands for a value that is not given or empty.
unfoldable pub get_inventory_snapshot :
    (ℕ → ℕ) → List Required → ℕ → Option Text → Option Text → Db → Result (List StockRow)
get_inventory_snapshot day_of required target mode basis s =
    snapshot (or_default mode (if ltb target s.today then codes "past" else codes "future"))
      (or_default basis (codes "raw"))
  where
    or_default : Option Text → Text → Text
    or_default none d = d
    or_default (some t) d = if is_empty t then d else t

    snapshot : Text → Text → Result (List StockRow)
    snapshot mode basis =
        if not (text_eq mode (codes "past") || text_eq mode (codes "future"))
        then err invalid_snapshot_mode
        else if not (text_eq basis (codes "raw") || text_eq basis (codes "net_available"))
        then err invalid_snapshot_basis
        else if text_eq basis (codes "net_available") && text_eq mode (codes "past")
        then err snapshot_basis_mode_unsupported
        else if text_eq mode (codes "past")
        then ok (past_state day_of target s)
        else ok (future_state (text_eq basis (codes "net_available")) target required s)
